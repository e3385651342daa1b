-- ===== src/Profile/Book.antt =====
-- The methods of the profile service keep the addresses of every customer in order.
use schick.Prelude.{
  ℕ, ◌<◌, ◌≡◌, inl, inr, refl, sym, subst, true, List, [], ◌∷◌, Option, none, some, Text, arith,
  leb, ◌==◌, eq_iff, lookup, delete, Bool-cases, if_rule_eq, if_rule, Result, ok, err, pos,
}
use schick.Profile
use schick.Profile.{
  Error, Address, ProfileRepository, count_of, cleared_address, cleared, without_user,
  count_addresses, get_address, own_address, is_of_another, save_address, deleted, delete_address,
  clear_default_addresses, next_address_id, upsert_profile, delete_user_data,
  validate_address_input,
}
use schick.Profile.Weights.{
  owned_by, default_of, weight-delete, weight-without_user, count_of-weight, IsKeyed-delete,
  IsKeyed-without_user, id_of_found,
}
use schick.Profile.Service.{
  ProfilePatch, ProfileView, AddressInput, patch_profile, stored_profile, create_validated,
  create_address, asks_default, patch_validated, patch_found, patch_address, default_found,
  set_default_address,
}
use schick.Profile.Defaults.{
  IsSound, saved-IsSound, cleared_if-IsSound, new_address-IsSound, resaved-IsSound,
}

create_validated-IsSound :
    (r : ProfileRepository) (user : Text) (input : AddressInput) (now at : ℕ)
    → (v : Result Error Address) → IsSound r.addresses
    → count_of user r.addresses < 10
    → IsSound (create_validated r user input now at v).0.addresses
unfolding next_address_id
create_validated-IsSound r user input now at (err e) h room = h
create_validated-IsSound r user input now at (ok v) h room =
    saved-IsSound _ _ (cleared_if-IsSound _ _ user at h)
      (new_address-IsSound _ (next_address_id r).0 at _ h refl room)

create_address-IsSound :
    (r : ProfileRepository) (user : Text) (input : AddressInput) (now at : ℕ)
    → IsSound r.addresses
    → IsSound (create_address r user input now at).0.addresses
unfolding create_address count_addresses
create_address-IsSound r user input now at h =
    if_rule_eq (λ (p : ProfileRepository × Result Error Address). IsSound p.0.addresses)
      (leb 10 (count_of user r.addresses)) (λ _. h)
      (λ e. create_validated-IsSound r user input now at _ h (ground arith))

found_own :
    (user : Text) (o : Option Address) (a : Address)
    → own_address user o ≡ some a
    → (o ≡ some a) × (a.user_id ≡ user)
found_own user none a found = ground arith
found_own user (some b) a found = elim (Bool-cases (b.user_id == user)) [
  | inl e ↦ grind (arith, eq_iff b.user_id user)
  | inr e ↦ ground arith
]

own_found :
    (r : ProfileRepository) (user id : Text) (a : Address)
    → get_address r user id ≡ some a
    → (lookup id r.addresses ≡ some a) × (a.user_id ≡ user)
unfolding get_address
own_found r user id a found = found_own user _ a found

patch_validated-IsSound :
    (r : ProfileRepository) (user : Text) (existing : Address) (input : AddressInput)
    → (now at : ℕ) (v : Result Error Address) → IsSound r.addresses
    → lookup existing.id r.addresses ≡ some existing
    → existing.user_id ≡ user
    → IsSound (patch_validated r user existing input now at v).0.addresses
patch_validated-IsSound r user existing input now at (err e) h found own = h
patch_validated-IsSound r user existing input now at (ok v) h found own =
    saved-IsSound _ _ (cleared_if-IsSound (asks_default input.is_default) r user at h)
      (resaved-IsSound (asks_default input.is_default) r user at _ existing h found own refl refl)

patch_found-IsSound :
    (r : ProfileRepository) (user id : Text) (input : AddressInput) (now at : ℕ)
    → (o : Option Address) → IsSound r.addresses
    → get_address r user id ≡ o
    → IsSound (patch_found r user input now at o).0.addresses
patch_found-IsSound r user id input now at none h found = h
patch_found-IsSound r user id input now at (some a) h found =
    let (there, own) = own_found r user id a found in
    let same : a.id ≡ id = id_of_found id a r.addresses h.keyed there in
    patch_validated-IsSound r user a input now at _ h
      (subst (λ k. lookup k r.addresses ≡ some a) (sym same) there) own

default_found-IsSound :
    (r : ProfileRepository) (user id : Text) (now at : ℕ) (o : Option Address)
    → IsSound r.addresses
    → get_address r user id ≡ o
    → IsSound (default_found r user now at o).0.addresses
default_found-IsSound r user id now at none h found = h
default_found-IsSound r user id now at (some a) h found =
    let (there, own) = own_found r user id a found in
    let same : a.id ≡ id = id_of_found id a r.addresses h.keyed there in
    saved-IsSound _ _ (cleared_if-IsSound true r user at h) (
      resaved-IsSound true r user at _ a h
        (subst (λ k. lookup k r.addresses ≡ some a) (sym same) there) own own refl)

deleted-IsSound :
    (r : ProfileRepository) (id : Text) (o : Option Address)
    → IsSound r.addresses
    → IsSound (deleted r id o).0.addresses
deleted-IsSound r id none h = h
deleted-IsSound r id (some _) h = record {
  keyed = IsKeyed-delete id r.addresses h.keyed;
  one = λ u. ground (arith, weight-delete (default_of u) id r.addresses, h.one u);
  few = λ u. ground (
    arith,
    count_of-weight u (delete id r.addresses),
    count_of-weight u r.addresses,
    weight-delete (owned_by u) id r.addresses,
    h.few u,
  );
}

without_user-IsSound :
    (m : List (Text × Address)) (user : Text) → IsSound m → IsSound (without_user user m)
without_user-IsSound m user h = record {
  keyed = IsKeyed-without_user user m h.keyed;
  one = λ u. ground (arith, weight-without_user (default_of u) user m, h.one u);
  few = λ u. ground (
    arith,
    count_of-weight u (without_user user m),
    count_of-weight u m,
    weight-without_user (owned_by u) user m,
    h.few u,
  );
}

stored_profile-IsSound :
    (r : ProfileRepository) (user : Text) (p : Result Error Profile.Profile)
    → IsSound r.addresses
    → IsSound (stored_profile r user p).0.addresses
unfolding upsert_profile
stored_profile-IsSound r user (ok p) h = h
stored_profile-IsSound r user (err e) h = h

-- The service's methods that write, with the readings of the clock.
pub data Call : Type 0 where
  patches_profile : ProfilePatch → ℕ → Call
  creates : AddressInput → ℕ → ℕ → Call
  patches : Text → AddressInput → ℕ → ℕ → Call
  sets_default : Text → ℕ → ℕ → Call
  deletes : Text → Call
  deletes_all : Call

unfoldable pub serve : ProfileRepository → Text → Call → ProfileRepository
serve r user (patches_profile patch now) = (patch_profile r user patch now).0
serve r user (creates input now at) = (create_address r user input now at).0
serve r user (patches id input now at) = (patch_address r user id input now at).0
serve r user (sets_default id now at) = (set_default_address r user id now at).0
serve r user (deletes id) = (delete_address r user id).0
serve r user deletes_all = delete_user_data r user

unfoldable pub serve_all : ProfileRepository → List (Text × Call) → ProfileRepository
serve_all r [] = r
serve_all r ((user, c) ∷ cs) = serve_all (serve r user c) cs

serve-IsSound :
    (r : ProfileRepository) (user : Text) (c : Call)
    → IsSound r.addresses
    → IsSound (serve r user c).addresses
unfolding serve patch_profile patch_address set_default_address delete_address delete_user_data
serve-IsSound r user (patches_profile patch now) h =
    if_rule (λ (p : ProfileRepository × Result Error ProfileView). IsSound p.0.addresses) _ h
      (stored_profile-IsSound r user _ h)
serve-IsSound r user (creates input now at) h = create_address-IsSound r user input now at h
serve-IsSound r user (patches id input now at) h =
    patch_found-IsSound r user id input now at _ h refl
serve-IsSound r user (sets_default id now at) h = default_found-IsSound r user id now at _ h refl
serve-IsSound r user (deletes id) h = deleted-IsSound r id _ h
serve-IsSound r user deletes_all h = without_user-IsSound r.addresses user h

serve_all-IsSound :
    (cs : List (Text × Call)) (r : ProfileRepository)
    → IsSound r.addresses
    → IsSound (serve_all r cs).addresses
unfolding serve_all
serve_all-IsSound [] r h = h
serve_all-IsSound ((user, c) ∷ cs) r h =
    serve_all-IsSound cs (serve r user c) (serve-IsSound r user c h)

abbrev pub empty_book : ProfileRepository
empty_book = record { profiles = []; addresses = []; addr_seq = pos 0 }

-- From an empty repository, after any calls by any users, one call after the other and whichever fail,
-- every address is stored under its id and every user has at most one default address and ten in all.
pub book-IsSound : (cs : List (Text × Call)) → IsSound (serve_all empty_book cs).addresses
unfolding count_of
book-IsSound cs =
    serve_all-IsSound cs empty_book
      (record { keyed = tt; one = λ u. ground arith; few = λ u. ground arith })
