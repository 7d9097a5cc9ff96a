-- ===== src/Executor/Recovery/Replay.antt =====
-- The replay guard of executor/recovery.py.
use peanut_trade_internship.Base.{
  String, true, some, is_some, ◌≡◌, ◌∙◌, refl, arith, ap, select-select, string_eq, str_eq,
  if◌then◌else◌,
}
use peanut_trade_internship.Base.Int.{ℤ, ◌-ℤ◌, ◌≤ℤ◌, ltb_ℤ, -ℤ_parts}
use peanut_trade_internship.Base.Dict.{
  Dict, lookup, contains, Unique, lookup-keep_values, Unique-keep_values, Unique-insert,
  lookup-insert,
}
use peanut_trade_internship.Executor.Recovery.{ReplayProtection, is_duplicate, mark_executed}

abbrev pub IsValid : ReplayProtection → Type 0
IsValid r = Unique r.executed

pub is_duplicate-IsValid :
    (r : ReplayProtection) (id : String) (now : ℤ) → IsValid r → IsValid (is_duplicate r id now).1
unfolding is_duplicate
is_duplicate-IsValid r id now v = Unique-keep_values (λ t. ltb_ℤ (now -ℤ r.ttl) t) r.executed v

pub is_duplicate-ttl :
    (r : ReplayProtection) (id : String) (now : ℤ) → (is_duplicate r id now).1.ttl ≡ r.ttl
unfolding is_duplicate
is_duplicate-ttl r id now = refl

pub mark_executed-IsValid :
    (r : ReplayProtection) (id : String) (now : ℤ) → IsValid r → IsValid (mark_executed r id now)
unfolding mark_executed
mark_executed-IsValid r id now v = Unique-insert id now r.executed v

pub later_cutoff :
    (w now later t : ℤ) → now ≤ℤ later → ltb_ℤ (later -ℤ w) t ≡ true → ltb_ℤ (now -ℤ w) t ≡ true
later_cutoff w now later t h e = ground (arith, -ℤ_parts later w, -ℤ_parts now w)

-- Asking does not change later answers: what the clean-up drops has expired for good.
pub is_duplicate_stable :
    (r : ReplayProtection) (id j : String) (now later : ℤ)
    → now ≤ℤ later
    → (is_duplicate (is_duplicate r id now).1 j later).0 ≡ (is_duplicate r j later).0
unfolding is_duplicate
is_duplicate_stable r id j now later h =
    ap (λ (d : Dict String ℤ). contains j d)
      (select-select (λ (entry : String × ℤ). ltb_ℤ (later -ℤ r.ttl) entry.1)
        (λ entry. ltb_ℤ (now -ℤ r.ttl) entry.1) r.executed
        (λ entry. later_cutoff r.ttl now later entry.1 h))

-- A mark that is not yet too old survives the clean-up.
pub is_duplicate-lookup :
    (r : ReplayProtection) (id j : String) (now t : ℤ)
    → IsValid r
    → lookup j r.executed ≡ some t
    → ltb_ℤ (now -ℤ r.ttl) t ≡ true
    → lookup j (is_duplicate r id now).1.executed ≡ some t
unfolding is_duplicate
is_duplicate-lookup r id j now t v noted young =
    lookup-keep_values (λ s. ltb_ℤ (now -ℤ r.ttl) s) j r.executed v ∙ rw (noted, young)

pub mark_executed-lookup :
    (r : ReplayProtection) (id j : String) (now : ℤ)
    → lookup j (mark_executed r id now).executed
      ≡ (if str_eq id j then some now else lookup j r.executed)
unfolding mark_executed
mark_executed-lookup r id j now = lookup-insert id j now r.executed

-- What is marked, and not too long ago, is a duplicate.
pub is_duplicate_noted :
    (r : ReplayProtection) (id : String) (now t : ℤ)
    → IsValid r
    → lookup id r.executed ≡ some t
    → ltb_ℤ (now -ℤ r.ttl) t ≡ true
    → (is_duplicate r id now).0 ≡ true
unfolding is_duplicate
is_duplicate_noted r id now t v noted young =
    ap is_some (is_duplicate-lookup r id id now t v noted young)
