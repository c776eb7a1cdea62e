-- ===== src/Endpoints/Proposals/Newest.antt =====
-- How the created time of an accepted proposal compares with those of the stored ones.
use mathlib.Core.Path.{subst}
use depa_kms_gcp_oidc.Prelude.{
  ℕ, ◌≤◌, ◌≡◌, refl, sym, ap, ◌∙◌, String, true, false, Option, none, some, List, [], ◌∷◌, All,
  erase, erase-All, arith, ltb, Bool-cases, Option-cases, inl, inr, if◌then◌else◌,
}
use depa_kms_gcp_oidc.Tooling.{Bytes}
use depa_kms_gcp_oidc.ServiceResult.{returned, bind-eq-returned, returned-injective}
use depa_kms_gcp_oidc.Endpoints.Cose.{Cbor, created_time}
use depa_kms_gcp_oidc.Endpoints.Proposals.{
  Times, same_time, set_time, get_time, created_times, keys, latest, is_before, delete_times,
  surplus, keep_last,
}

pub same_time_eq : (t u : Option ℕ) → same_time t u ≡ true → t ≡ u
unfolding same_time
same_time_eq none none h = refl
same_time_eq (some a) (some b) h = ap some (ground arith)
same_time_eq none (some b) h = cc
same_time_eq (some a) none h = cc

-- The time is in the map, and whatever holds of its times held of those before.
keys-set_time {κ} :
    (Q : Option ℕ → Type κ) (t : Option ℕ) (id : String) (times : Times)
    → All Q (keys (set_time t id times))
    → Q t × All Q (keys times)
unfolding set_time
keys-set_time Q t id [] (q, _) = (q, tt)
keys-set_time Q t id ((u, old) ∷ times) qs = elim (Bool-cases (same_time u t)) [
  | inl same ↦
      let (q, rest) = rw (same, set_time) at qs in
      (q, (subst Q (sym (same_time_eq u t same)) q, rest))
  | inr other ↦
      let (q, rest) = rw (other, set_time) at qs in
      let (here, later) = keys-set_time Q t id times rest in (here, (q, later))
]

-- The created time of the proposal, which has the property.
abbrev pub Has {κ} : (Option ℕ → Type κ) → Cbor → String × Bytes → Type κ
Has Q cbor entry = (t : Option ℕ) × (created_time cbor entry.1 ≡ returned t) × Q t

-- What holds of the times of the map holds of the created times of the proposals it is made of.
pub created_times-Has {κ} :
    (Q : Option ℕ → Type κ) (cbor : Cbor) (proposals : List (String × Bytes)) (times : Times)
    {times' : Times}
    → created_times cbor proposals times ≡ returned times'
    → All Q (keys times')
    → All (Has Q cbor) proposals × All Q (keys times)
unfolding created_times
created_times-Has Q cbor [] times h qs =
    (tt, subst (λ ts. All Q (keys ts)) (sym (returned-injective h)) qs)
created_times-Has Q cbor ((id, document) ∷ proposals) times h qs =
    let (t, read, rest) = bind-eq-returned (created_time cbor document) _ h in
    let (later, qs') = created_times-Has Q cbor proposals (set_time t id times) rest qs in
    let (q, before) = keys-set_time Q t id times qs' in (((t, read, q), later), before)

-- Conversely, what holds of both holds of the times of the map.
pub set_time-All {κ} :
    (Q : Option ℕ → Type κ) (t : Option ℕ) (id : String) (times : Times)
    → Q t
    → All Q (keys times)
    → All Q (keys (set_time t id times))
unfolding set_time
set_time-All Q t id [] q qs = (q, tt)
set_time-All Q t id ((u, old) ∷ times) q (first, qs) = elim (Bool-cases (same_time u t)) [
  | inl same ↦ rw (same, set_time) (q, qs)
  | inr other ↦ rw (other, set_time) (first, set_time-All Q t id times q qs)
]

pub created_times-All {κ} :
    (Q : Option ℕ → Type κ) (cbor : Cbor) (proposals : List (String × Bytes)) (times : Times)
    {times' : Times}
    → created_times cbor proposals times ≡ returned times'
    → All (Has Q cbor) proposals
    → All Q (keys times)
    → All Q (keys times')
unfolding created_times
created_times-All Q cbor [] times h has qs = subst (λ ts. All Q (keys ts)) (returned-injective h) qs
created_times-All Q cbor ((id, document) ∷ proposals) times h ((t, read, q), has) qs =
    let (u, read', rest) = bind-eq-returned (created_time cbor document) _ h in
    let same = returned-injective (sym read ∙ read') in
    created_times-All Q cbor proposals (set_time u id times) rest has
      (set_time-All Q u id times (subst Q same q) qs)

-- A time that is there, and is no later than the given one.
abbrev pub IsUpTo : ℕ → Option ℕ → Type 0
IsUpTo m t = (u : ℕ) × (t ≡ some u) × (u ≤ m)

IsUpTo-All :
    (n m : ℕ) (times : List (Option ℕ)) → n ≤ m → All (IsUpTo n) times → All (IsUpTo m) times
IsUpTo-All n m [] below up = tt
IsUpTo-All n m (t ∷ times) below ((u, there, low), up) =
    ((u, there, omega (arith, low, below)), IsUpTo-All n m times below up)

larger_of : (n t m : ℕ) → (if ltb n t then t else n) ≡ m → (n ≤ m) × (t ≤ m)
larger_of n t m h = (ground arith, ground arith)

pub latest-IsUpTo : (times : List (Option ℕ)) {m : ℕ} → latest times ≡ some m → All (IsUpTo m) times
unfolding latest
latest-IsUpTo [] h = tt
latest-IsUpTo (none ∷ times) h = cc
latest-IsUpTo (some t ∷ times) {m} h = elim (Option-cases (latest times)) [
  | inl none_there ↦ let h' = rw none_there at h in cc
  | inr (n, found) ↦
      let h' = rw (found, latest) at h in
      let (below, low) = larger_of n t m (cc h') in
      ((t, refl, low), IsUpTo-All n m times below (latest-IsUpTo times found))
]

-- No time of a map whose times are all there and up to `m` is later than `m`.
pub latest_up_to :
    (m : ℕ) (times : List (Option ℕ))
    → All (IsUpTo m) times
    → is_before (some m) (latest times) ≡ false
unfolding latest
latest_up_to m [] up = ground arith
latest_up_to m (none ∷ times) up = refl
latest_up_to m (some t ∷ times) ((u, there, low), up) =
    let later = latest_up_to m times up in
    let same : t ≡ u = cc there in
    elim (Option-cases (latest times)) [
      | inl none_there ↦ rw (none_there, latest) refl
      | inr (n, found) ↦
          let later' : ltb m n ≡ false = rw found at later in rw (found, latest) (ground arith)
    ]

-- The time is there.
abbrev pub IsThere : Option ℕ → Type 0
IsThere t = (u : ℕ) × (t ≡ some u)

latest_of_there : (times : List (Option ℕ)) → All IsThere times → (m : ℕ) × (latest times ≡ some m)
unfolding latest
latest_of_there [] there = (0, refl)
latest_of_there (none ∷ times) ((u, t), there) = cc
latest_of_there (some t ∷ times) (_, there) =
    let (m, found) = latest_of_there times there in
    (if ltb m t then t else m, rw (found, latest) refl)

-- A time that is not before the latest of times that are all there is no earlier than any of them.
pub IsUpTo-of_not_before :
    (t : ℕ) (times : List (Option ℕ))
    → All IsThere times
    → is_before (some t) (latest times) ≡ false
    → All (IsUpTo t) times
IsUpTo-of_not_before t times there h =
    let (m, found) = latest_of_there times there in
    let h' : ltb t m ≡ false = rw found at h in
    IsUpTo-All m t times (ground arith) (latest-IsUpTo times found)

-- What every deletion keeps, the loop over the times keeps.
delete_times-keeps {κ} :
    (R : List (String × Bytes) → Type κ)
    → ((id : String) (proposals : List (String × Bytes)) → R proposals → R (erase id proposals))
    → (ts : List (Option ℕ)) (times : Times) (proposals : List (String × Bytes)) → R proposals
    → R (delete_times ts times proposals)
unfolding delete_times
delete_times-keeps R keep [] times proposals r = r
delete_times-keeps R keep (t ∷ ts) times proposals r = elim (Option-cases (get_time t times)) [
  | inl missing ↦ rw (missing, delete_times) (delete_times-keeps R keep ts times proposals r)
  | inr (id, found) ↦
      rw (found, delete_times)
        (delete_times-keeps R keep ts times (erase id proposals) (keep id proposals r))
]

pub keep_last-keeps {κ} :
    (R : List (String × Bytes) → Type κ)
    → ((id : String) (proposals : List (String × Bytes)) → R proposals → R (erase id proposals))
    → (times : Times) (proposals : List (String × Bytes)) → R proposals
    → R (keep_last times proposals)
unfolding keep_last
keep_last-keeps R keep times proposals r =
    delete_times-keeps R keep (surplus times) times proposals r

pub keep_last-All {κ} :
    (P : String × Bytes → Type κ) (times : Times) (proposals : List (String × Bytes))
    → All P proposals
    → All P (keep_last times proposals)
keep_last-All P times proposals ps = keep_last-keeps (All P) (erase-All P) times proposals ps
