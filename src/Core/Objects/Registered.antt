-- ===== src/Core/Objects/Registered.antt =====
-- Project/CoreLib/ObjectManager.cpp: which function the manager finds for an object.
use network_omok.Base.{
  ℕ, suc, ◌<◌, ◌≤◌, ◌≡◌, ◌⊎◌, inl, inr, ◌&&◌, none, some, ◌==◌, if◌then◌else◌, arith, Bool-cases,
  Option-cases,
}
use network_omok.Server.{Address}
use network_omok.Core.Objects.{
  put, erase_id, clear, Registry, add_execute, delete_execute, ignore, register,
}

-- A registry behind at most `n` registrations: an object that is in a scene has its own function
-- there, and the id that an object has leads to no function but its own.
pub record IsRegistered (n : ℕ) (r : Registry) : Type 0 where
  pub count : r.next ≤ n
  pub found : (i k : ℕ) (o : Address) → r.objects i k ≡ some o → r.functions i k ≡ some o
  pub own : (i : ℕ) (o p : Address) → r.functions i (r.ids o) ≡ some p → p ≡ o
  pub fresh : (i k : ℕ) → r.next ≤ k → r.functions i k ≡ none
  pub given : (o : Address) → (r.ids o < r.next) ⊎ (r.ids o ≡ 4294967295)

add_execute-IsRegistered :
    (owner : Address) (index n : ℕ) (r : Registry)
    → n < 4294967295
    → IsRegistered n r
    → IsRegistered (suc n) (add_execute owner index r)
unfolding add_execute put
add_execute-IsRegistered owner index n r small h =
    let count = h.count in
    record {
      count = omega arith;
      found = λ i k o e. elim (Bool-cases (i == index && k == r.next)) [
        | inl here ↦
            let none_yet = h.fresh i k (ground (arith, here)) in
            elim (Option-cases (r.objects i k)) [
              | inl free ↦ ground (arith, here, none_yet, free, e)
              | inr (p, there) ↦ absurd (ground (arith, h.found i k p there, none_yet))
            ]
        | inr away ↦ ground (arith, away, e, h.found i k o)
      ];
      own = λ i o p e. elim (Bool-cases (o == owner)) [
        | inl same ↦
            let none_yet = h.fresh i r.next (omega arith) in ground (arith, same, none_yet, e)
        | inr other ↦ elim (h.given o) [
          | inl old ↦ h.own i o p (ground (arith, other, old, e))
          | inr unused ↦ h.own i o p (ground (arith, other, unused, e, count, small))
        ]
      ];
      fresh = λ i k above. ground (arith, h.fresh i k (omega arith), above, count, small);
      given = λ o. elim (Bool-cases (o == owner)) [
        | inl same ↦ inl (ground (arith, same, count, small))
        | inr other ↦ elim (h.given o) [
          | inl old ↦ inl (ground (arith, other, old, count, small))
          | inr unused ↦ inr (ground (arith, other, unused))
        ]
      ];
    }

pub delete_execute-IsRegistered :
    (owner : Address) (index n : ℕ) (r : Registry)
    → IsRegistered n r
    → IsRegistered n (delete_execute owner index r)
unfolding delete_execute erase_id
delete_execute-IsRegistered owner index n r h = record {
  count = h.count;
  found = λ i k o e. ground (arith, e, h.found i k o);
  own = λ i o p e. h.own i o p (ground (arith, e));
  fresh = λ i k above. ground (arith, h.fresh i k above);
  given = h.given;
}

pub register-IsRegistered :
    (type index n : ℕ) (owner : Address) (r : Registry)
    → n < 4294967295
    → IsRegistered n r
    → IsRegistered (suc n) (register type index owner r)
unfolding register
register-IsRegistered type index n owner r small h = elim (Bool-cases (type == ignore)) [
  | inl ignored ↦
      let count = h.count in
      rw ignored (record {
        count = omega arith;
        found = h.found;
        own = h.own;
        fresh = h.fresh;
        given = h.given;
      })
  | inr taken ↦ rw taken (
      add_execute-IsRegistered owner index n
        (record r { types = λ a. if a == owner then type else r.types a }) small
        (record {
          count = h.count;
          found = h.found;
          own = h.own;
          fresh = h.fresh;
          given = h.given;
        }))
]

pub clear-IsRegistered :
    (index n : ℕ) (r : Registry)
    → IsRegistered n r
    → IsRegistered n (record r { objects = clear index r.objects })
unfolding clear
clear-IsRegistered index n r h = record {
  count = h.count;
  found = λ i k o e. h.found i k o (ground (arith, e));
  own = h.own;
  fresh = h.fresh;
  given = h.given;
}

pub more-IsRegistered : (n k : ℕ) (r : Registry) → n ≤ k → IsRegistered n r → IsRegistered k r
more-IsRegistered n k r more h =
    let count = h.count in
    record { count = omega arith; found = h.found; own = h.own; fresh = h.fresh; given = h.given }
