-- ===== src/Net/TimerQueue/Timers.antt =====
-- Lists of timers in the order of net/TimerQueue.h's `TimerList`, each timer at an address of its own.
use slack.Base.{
  ℕ, suc, ◌≡◌, List, [], ◌∷◌, ◌++◌, Bool, true, false, not, ◌&&◌, ◌||◌, some, none, if◌then◌else◌,
  leb, ◌==◌, length, arith, refl, sym, ap, ◌∙◌, Bool-cases, inl, inr,
}
use slack.Net.TimerQueue.{
  Timer, find_at, remove_at, Entry, entry_lt, has_entry, insert_entry, erase_entry, same_key, until,
  beyond,
}

abbrev pub entry : Timer → Entry
entry t = (t.expiration, t.address)

abbrev pub entries : List Timer → List Entry
entries [] = []
entries (t ∷ ts) = entry t ∷ entries ts

abbrev pub has_key : ℕ → ℕ → List Timer → Bool
has_key a s [] = false
has_key a s (t ∷ ts) = same_key t.address t.sequence a s || has_key a s ts

-- No two timers have one address.
abbrev pub Distinct : List Timer → Type 0
Distinct [] = Unit {0}
Distinct (t ∷ ts) = (find_at t.address ts ≡ none) × Distinct ts

abbrev pub insert_timer : Timer → List Timer → List Timer
insert_timer t [] = t ∷ []
insert_timer t (u ∷ us) = if entry_lt (entry t) (entry u) then t ∷ u ∷ us else u ∷ insert_timer t us

-- The timers that are due, and the later ones.
abbrev pub due : ℕ → List Timer → List Timer
due now [] = []
due now (t ∷ ts) = if leb t.expiration now then t ∷ due now ts else []

abbrev pub later : ℕ → List Timer → List Timer
later now [] = []
later now (t ∷ ts) = if leb t.expiration now then later now ts else t ∷ ts

pub length-entries : (ts : List Timer) → length (entries ts) ≡ length ts
length-entries [] = refl
length-entries (t ∷ ts) = ap suc (length-entries ts)

pub find_at-address : (a : ℕ) (ts : List Timer) (t : Timer) → find_at a ts ≡ some t → t.address ≡ a
find_at-address a [] t h = cc
find_at-address a (u ∷ us) t h = ground (arith, find_at-address a us t)

pub has_key-none : (a s : ℕ) (ts : List Timer) → find_at a ts ≡ none → has_key a s ts ≡ false
has_key-none a s [] h = refl
has_key-none a s (t ∷ ts) h = ground (arith, has_key-none a s ts)

pub has_entry-none :
    (w a : ℕ) (ts : List Timer) → find_at a ts ≡ none → has_entry (w, a) (entries ts) ≡ false
has_entry-none w a [] h = refl
has_entry-none w a (t ∷ ts) h = ground (arith, has_entry-none w a ts)

pub has_entry-some :
    (a : ℕ) (ts : List Timer) (t : Timer)
    → find_at a ts ≡ some t
    → has_entry (t.expiration, a) (entries ts) ≡ true
has_entry-some a [] t h = cc
has_entry-some a (u ∷ us) t h = ground (arith, has_entry-some a us t)

pub at_same :
    (a b : ℕ) (ts : List Timer) → (b == a) ≡ true → find_at b ts ≡ none → find_at a ts ≡ none
at_same a b ts e h = let same : b ≡ a = ground arith in ap (λ x. find_at x ts) (sym same) ∙ h

pub has_key-some :
    (a s : ℕ) (ts : List Timer)
    → Distinct ts
    → has_key a s ts ≡ true
    → (t : Timer) × (find_at a ts ≡ some t) × (t.sequence ≡ s)
has_key-some a s [] d h = cc
has_key-some a s (t ∷ ts) d h = elim (Bool-cases (t.address == a)) [
  | inl e ↦
      let no = has_key-none a s ts (at_same a t.address ts e d.0) in rw e (t, refl, ground arith)
  | inr e ↦ rw e (has_key-some a s ts d.1 (ground arith))
]

pub entries-insert_timer :
    (t : Timer) (ts : List Timer)
    → find_at t.address ts ≡ none
    → entries (insert_timer t ts) ≡ insert_entry (entry t) (entries ts)
entries-insert_timer t [] h = refl
entries-insert_timer t (u ∷ us) h = ground (arith, entries-insert_timer t us)

pub length-insert_timer :
    (t : Timer) (ts : List Timer) → length (insert_timer t ts) ≡ suc (length ts)
length-insert_timer t [] = refl
length-insert_timer t (u ∷ us) = ground (arith, length-insert_timer t us)

pub has_key-insert_timer :
    (a s : ℕ) (t : Timer) (ts : List Timer)
    → has_key a s (insert_timer t ts) ≡ same_key t.address t.sequence a s || has_key a s ts
has_key-insert_timer a s t [] = refl
has_key-insert_timer a s t (u ∷ us) = ground (arith, has_key-insert_timer a s t us)

pub find_at-insert_timer :
    (a : ℕ) (t : Timer) (ts : List Timer)
    → find_at t.address ts ≡ none
    → find_at a (insert_timer t ts) ≡ (if t.address == a then some t else find_at a ts)
find_at-insert_timer a t [] h = refl
find_at-insert_timer a t (u ∷ us) h = ground (arith, find_at-insert_timer a t us)

pub insert_timer-Distinct :
    (t : Timer) (ts : List Timer)
    → find_at t.address ts ≡ none
    → Distinct ts
    → Distinct (insert_timer t ts)
insert_timer-Distinct t [] h d = (refl, tt)
insert_timer-Distinct t (u ∷ us) h d = elim (Bool-cases (entry_lt (entry t) (entry u))) [
  | inl e ↦ rw e (h, d)
  | inr e ↦ rw e (
    find_at-insert_timer u.address t us (ground arith) ∙ ground (arith, d.0),
    insert_timer-Distinct t us (ground arith) d.1,
  )
]

pub find_at-remove_at :
    (a b : ℕ) (ts : List Timer)
    → find_at a (remove_at b ts) ≡ (if a == b then none else find_at a ts)
find_at-remove_at a b [] = ground arith
find_at-remove_at a b (t ∷ ts) = ground (arith, find_at-remove_at a b ts)

pub remove_at-none : (a : ℕ) (ts : List Timer) → find_at a ts ≡ none → remove_at a ts ≡ ts
remove_at-none a [] h = refl
remove_at-none a (t ∷ ts) h = ground (arith, remove_at-none a ts)

pub remove_at-Distinct : (a : ℕ) (ts : List Timer) → Distinct ts → Distinct (remove_at a ts)
remove_at-Distinct a [] d = tt
remove_at-Distinct a (t ∷ ts) d = elim (Bool-cases (t.address == a)) [
  | inl e ↦ rw e (remove_at-Distinct a ts d.1)
  | inr e ↦
      rw e (find_at-remove_at t.address a ts ∙ ground (arith, d.0), remove_at-Distinct a ts d.1)
]

pub length-remove_at :
    (a : ℕ) (ts : List Timer) (t : Timer)
    → Distinct ts
    → find_at a ts ≡ some t
    → suc (length (remove_at a ts)) ≡ length ts
length-remove_at a [] t d h = cc
length-remove_at a (u ∷ us) t d h = elim (Bool-cases (u.address == a)) [
  | inl e ↦ rw (e, remove_at-none a us (at_same a u.address us e d.0)) refl
  | inr e ↦ rw e (ap suc (length-remove_at a us t d.1 (ground arith)))
]

pub key_gone :
    (b s : ℕ) (u : Timer) (us : List Timer)
    → same_key u.address u.sequence b s ≡ true
    → find_at u.address us ≡ none
    → has_key b s us ≡ false
key_gone b s u us k h = has_key-none b s us (at_same b u.address us (ground arith) h)

pub has_key-remove_at :
    (a b s : ℕ) (ts : List Timer) (t : Timer)
    → Distinct ts
    → find_at a ts ≡ some t
    → has_key b s (remove_at a ts) ≡ not (same_key a t.sequence b s) && has_key b s ts
has_key-remove_at a b s [] t d h = cc
has_key-remove_at a b s (u ∷ us) t d h = elim (Bool-cases (u.address == a)) [
  | inl e ↦
      let n = at_same a u.address us e d.0 in
      let no = has_key-none a s us n in
      rw (e, remove_at-none a us n)
        (ground (arith, λ (k : same_key u.address u.sequence b s ≡ true). key_gone b s u us k d.0))
  | inr e ↦ rw e (ground (arith, has_key-remove_at a b s us t d.1))
]

pub entries-remove_at :
    (a : ℕ) (ts : List Timer) (t : Timer)
    → Distinct ts
    → find_at a ts ≡ some t
    → erase_entry (t.expiration, a) (entries ts) ≡ entries (remove_at a ts)
entries-remove_at a [] t d h = cc
entries-remove_at a (u ∷ us) t d h = elim (Bool-cases (u.address == a)) [
  | inl e ↦ let n = at_same a u.address us e d.0 in rw (e, remove_at-none a us n) (ground arith)
  | inr e ↦ rw e (ground (arith, entries-remove_at a us t d.1))
]

pub until-due : (now : ℕ) (ts : List Timer) → until now (entries ts) ≡ entries (due now ts)
until-due now [] = refl
until-due now (t ∷ ts) = ground (arith, until-due now ts)

pub beyond-later : (now : ℕ) (ts : List Timer) → beyond now (entries ts) ≡ entries (later now ts)
beyond-later now [] = refl
beyond-later now (t ∷ ts) = ground (arith, beyond-later now ts)

pub due-later : (now : ℕ) (ts : List Timer) → due now ts ++ later now ts ≡ ts
due-later now [] = refl
due-later now (t ∷ ts) = ground (arith, due-later now ts)
