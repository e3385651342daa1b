-- ===== src/Profile/Tests.antt =====
-- An address book at work: two addresses that ask to be the default, a change of default, a deletion.
use schick.Prelude.{
  ◌≡◌, refl, ◌+ℤ◌, true, List, [], ◌∷◌, some, Text, codes, ◌==◌, trim, trim_left, trim_right,
  is_space, to_upper, lookup, insert, delete, decimal, decimal6, zeros_onto, digits_onto,
}
use schick.Prelude.Word
use schick.Prelude.Case.{upper_rune}
use schick.Order.Shipping.{is_kr_phone, is_postal_code, is_pccc, digits_of, all_digits}
use schick.Profile
use schick.Profile.{Address, AddressFields}
use schick.Profile.Service
use schick.Profile.Service.{AddressInput, get_profile_view}
use schick.Profile.Defaults.{IsSound}
use schick.Profile.Book.{Call, creates, sets_default, serve, serve_all, empty_book, book-IsSound}

-- What the runs compute through.
book_code : Unit {0}
unfolding trim trim_right trim_left is_space to_upper upper_rune ◌==◌ ◌+ℤ◌ Word.add Word.wrap lookup
    insert delete decimal decimal6 zeros_onto digits_onto is_kr_phone is_postal_code is_pccc
    digits_of all_digits Profile.normalize_person_name Profile.normalize_kr_phone
    Profile.normalize_postal_code Profile.normalize_pccc Profile.normalize_address_line
    Profile.normalize_optional_line Profile.validate_address_input Profile.get_profile
    Profile.comes_before Profile.insert_address Profile.listed_onto Profile.list_addresses
    Profile.count_of Profile.count_addresses Profile.get_address Profile.save_address
    Profile.delete_address Profile.cleared Profile.clear_default_addresses Profile.next_address_id
    get_profile_view Service.create_address Service.set_default_address serve serve_all
book_code = tt

abbrev home : AddressInput
home = record {
  label = codes "home";
  fields = record {
    recipient_name = codes "Kim";
    recipient_phone = codes "010-1234-5678";
    postal_code = codes "04524";
    address_line1 = codes "Sejong-daero 110";
    address_line2 = [];
    city = codes "Seoul";
    province = codes "Seoul";
    pccc = [];
  };
  is_default = some true;
}

abbrev calls : List (Text × Call)
calls =
    (codes "u", creates home 1 1)
    ∷ (codes "u", creates home 2 2)
    ∷ (codes "u", sets_default (codes "addr_000001") 3 3)
    ∷ []

-- The first address is the default again.
set_again :
    (get_profile_view (serve_all empty_book calls) (codes "u")).default_address_id
    ≡ codes "addr_000001"
unfolding book_code
set_again = refl

book-IsSound_example : IsSound (serve_all empty_book calls).addresses
book-IsSound_example = book-IsSound calls
