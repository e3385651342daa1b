-- ===== src/Profile/Defaults.antt =====
-- A customer has at most one default address and ten in all: what a save does to that.
use schick.Prelude.{
  ℕ, ◌≤◌, ◌<◌, ◌≡◌, inl, inr, refl, sym, ap, ◌∙◌, Bool, true, false, ◌&&◌, List, some, Text, arith,
  ◌==◌, eq_iff, if◌then◌else◌, lookup, insert, Bool-cases, if_rule,
}
use schick.Profile.{
  Address, ProfileRepository, count_of, cleared_address, cleared, is_of_another, save_address,
  clear_default_addresses,
}
use schick.Profile.Weights.{
  weight, owned_by, default_of, IsKeyed, weight-insert, weight_of_replaced, owned-cleared,
  defaults-cleared, lookup-cleared, count_of-weight, IsKeyed-insert, IsKeyed-cleared,
}
use schick.Profile.Service.{saved, cleared_if}

-- Every address is stored under its id; a user has at most one default address and ten in all.
pub record IsSound (m : List (Text × Address)) : Type 0 where
  pub keyed : IsKeyed m
  pub one : (u : Text) → weight (default_of u) m ≤ 1
  pub few : (u : Text) → count_of u m ≤ 10

-- A new default address of a user, when the others are cleared.
default_put :
    (m : List (Text × Address)) (user : Text) (now : ℕ) (a : Address)
    → IsSound m
    → a.user_id ≡ user
    → (u : Text) → weight (default_of u) (insert a.id a (cleared user now m)) ≤ 1
default_put m user now a h own u = grind (
  arith,
  weight-insert (default_of u) a.id a (cleared user now m),
  defaults-cleared user u now m,
  h.one u,
  eq_iff a.user_id u,
  eq_iff user u,
)

-- An address that is no default.
plain_put :
    (m : List (Text × Address)) (a : Address)
    → IsSound m
    → a.is_default ≡ false
    → (u : Text) → weight (default_of u) (insert a.id a m) ≤ 1
plain_put m a h off u = ground (arith, weight-insert (default_of u) a.id a m, h.one u)

-- One more address for a user with fewer than ten.
few_with_new :
    (m m' : List (Text × Address)) (a : Address)
    → IsSound m
    → ((u : Text) → weight (owned_by u) m' ≡ weight (owned_by u) m)
    → count_of a.user_id m < 10
    → (u : Text) → count_of u (insert a.id a m') ≤ 10
few_with_new m m' a h same room u = grind (
  arith,
  count_of-weight u (insert a.id a m'),
  count_of-weight u m,
  weight-insert (owned_by u) a.id a m',
  same u,
  h.few u,
  eq_iff a.user_id u,
)

-- An address in the place of one of the same user.
few_with_replaced :
    (m m' : List (Text × Address)) (a old : Address)
    → IsSound m
    → ((u : Text) → weight (owned_by u) m' ≡ weight (owned_by u) m)
    → lookup a.id m' ≡ some old
    → old.user_id ≡ a.user_id
    → (u : Text) → count_of u (insert a.id a m') ≤ 10
few_with_replaced m m' a old h same found own u =
    let k : owned_by u old ≡ owned_by u a = ap (λ t. if t == u then 1 else 0) own in
    ground (
      arith,
      count_of-weight u (insert a.id a m'),
      count_of-weight u m,
      weight_of_replaced (owned_by u) a.id a old m' found,
      same u,
      h.few u,
      k,
    )

-- A change that keeps whether it is the default.
same_put :
    (m : List (Text × Address)) (a old : Address)
    → IsSound m
    → lookup a.id m ≡ some old
    → old.user_id ≡ a.user_id
    → old.is_default ≡ a.is_default
    → (u : Text) → weight (default_of u) (insert a.id a m) ≤ 1
same_put m a old h found own same u =
    let k : default_of u old ≡ default_of u a = rw own (rw same refl) in
    ground (arith, weight_of_replaced (default_of u) a.id a old m found, h.one u, k)

pub cleared-IsSound :
    (m : List (Text × Address)) (user : Text) (now : ℕ) → IsSound m → IsSound (cleared user now m)
cleared-IsSound m user now h = record {
  keyed = IsKeyed-cleared user now m h.keyed;
  one = λ u. ground (arith, defaults-cleared user u now m, h.one u);
  few = λ u. ground (
    arith,
    count_of-weight u (cleared user now m),
    count_of-weight u m,
    owned-cleared user u now m,
    h.few u,
  );
}

pub saved-IsSound :
    (r : ProfileRepository) (a : Address)
    → IsSound r.addresses
    → IsSound (insert a.id a r.addresses)
    → IsSound (saved a (save_address r a)).0.addresses
unfolding save_address
saved-IsSound r a before after =
    elim (Bool-cases (is_of_another a.user_id (lookup a.id r.addresses))) [
      | inl e ↦ rw e before
      | inr e ↦ rw e after
    ]

-- What a method saves after it has cleared the defaults, if it does.
pub cleared_if-IsSound :
    (test : Bool) (r : ProfileRepository) (user : Text) (now : ℕ)
    → IsSound r.addresses
    → IsSound (cleared_if test r user now).addresses
unfolding clear_default_addresses
cleared_if-IsSound true r user now h = cleared-IsSound r.addresses user now h
cleared_if-IsSound false r user now h = h

pub new_address-IsSound :
    (test : Bool) (r : ProfileRepository) (now : ℕ) (a : Address)
    → IsSound r.addresses
    → a.is_default ≡ test
    → count_of a.user_id r.addresses < 10
    → IsSound (insert a.id a (cleared_if test r a.user_id now).addresses)
unfolding clear_default_addresses
new_address-IsSound true r now a h e room = record {
  keyed = IsKeyed-insert a _ (IsKeyed-cleared a.user_id now r.addresses h.keyed);
  one = default_put r.addresses a.user_id now a h refl;
  few = few_with_new r.addresses _ a h (λ u. owned-cleared a.user_id u now r.addresses) room;
}
new_address-IsSound false r now a h e room = record {
  keyed = IsKeyed-insert a _ h.keyed;
  one = plain_put r.addresses a h e;
  few = few_with_new r.addresses _ a h (λ u. refl) room;
}

cleared_owner :
    (user : Text) (now : ℕ) (a : Address) → (cleared_address user now a).user_id ≡ a.user_id
cleared_owner user now a =
    if_rule (λ (b : Address). b.user_id ≡ a.user_id) (a.user_id == user && a.is_default) refl refl

-- A found address that is saved again, as the default after a clear or as it was.
pub resaved-IsSound :
    (test : Bool) (r : ProfileRepository) (user : Text) (now : ℕ) (a old : Address)
    → IsSound r.addresses
    → lookup a.id r.addresses ≡ some old
    → old.user_id ≡ user
    → a.user_id ≡ user
    → a.is_default ≡ (if test then true else old.is_default)
    → IsSound (insert a.id a (cleared_if test r user now).addresses)
unfolding clear_default_addresses
resaved-IsSound true r user now a old h found own mine e = record {
  keyed = IsKeyed-insert a _ (IsKeyed-cleared user now r.addresses h.keyed);
  one = default_put r.addresses user now a h mine;
  few =
      few_with_replaced r.addresses _ a (cleared_address user now old) h
        (λ u. owned-cleared user u now r.addresses)
        (lookup-cleared user a.id now old r.addresses found)
        (cleared_owner user now old ∙ own ∙ sym mine);
}
resaved-IsSound false r user now a old h found own mine e = record {
  keyed = IsKeyed-insert a _ h.keyed;
  one = same_put r.addresses a old h found (own ∙ sym mine) (sym e);
  few = few_with_replaced r.addresses _ a old h (λ u. refl) found (own ∙ sym mine);
}
