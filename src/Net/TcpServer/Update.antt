-- ===== src/Net/TcpServer/Update.antt =====
-- Queues, maps and names of net/TcpServer.cc, changed at one place.
use slack.Std.Text.{codes}
use slack.Std.Scan.{same, same_refl, same_eq}
use slack.Base.{
  ℕ, ◌≤◌, ◌<◌, ◌≡◌, ◌≢◌, List, [], ◌∷◌, ◌++◌, true, false, Option, if◌then◌else◌, ◌==◌, length,
  length-append, take, take_all, arith, refl, sym, ◌∙◌, Bool-cases, inl, inr,
}
use slack.Net.TcpServer.{Task, establish, remove, destroy, update_at, map_to, conn_name}

abbrev pub task_id : Task → ℕ
task_id (establish i) = i
task_id (remove i) = i
task_id (destroy i) = i

-- The functors in a queue that are about connection `i`.
abbrev pub mine : ℕ → List Task → List Task
mine i [] = []
mine i (t ∷ ts) = if task_id t == i then t ∷ mine i ts else mine i ts

pub mine-snoc :
    (i : ℕ) (ts : List Task) (t : Task)
    → mine i (ts ++ (t ∷ [])) ≡ (if task_id t == i then mine i ts ++ (t ∷ []) else mine i ts)
mine-snoc i [] t = ground arith
mine-snoc i (u ∷ ts) t = ground (arith, mine-snoc i ts t)

pub eq_refl : (i : ℕ) → (i == i) ≡ true
eq_refl i = ground arith

pub update_at_same {ℓ} : {A : Type ℓ} (f : ℕ → A) (i : ℕ) (a : A) → update_at f i a i ≡ a
update_at_same f i a = rw (eq_refl i) refl

pub update_at_other {ℓ} :
    {A : Type ℓ} (f : ℕ → A) (i j : ℕ) (a : A) → (i == j) ≡ false → update_at f i a j ≡ f j
update_at_other f i j a h = rw h refl

pub not_same : (j k : List ℕ) → j ≢ k → same j k ≡ false
not_same j k h = elim (Bool-cases (same j k)) [ inl e ↦ absurd (h (same_eq j k e)) | inr e ↦ e ]

pub map_to_same : (m : List ℕ → Option ℕ) (k : List ℕ) (o : Option ℕ) → map_to m k o k ≡ o
map_to_same m k o = rw (same_refl k) refl

pub map_to_other :
    (m : List ℕ → Option ℕ) (k j : List ℕ) (o : Option ℕ) → k ≢ j → map_to m k o j ≡ m j
map_to_other m k j o h = rw (not_same k j h) refl

append_cancel : (xs ys zs : List ℕ) → xs ++ ys ≡ xs ++ zs → ys ≡ zs
append_cancel [] ys zs h = h
append_cancel (x ∷ xs) ys zs h = append_cancel xs ys zs (cc)

-- What the code relies on in `snprintf` of a number.
pub record IsDecimal (decimal : ℕ → List ℕ) : Type 0 where
  pub short : (i : ℕ) → i < 2147483648 → length (decimal i) ≤ 11
  pub distinct : (i j : ℕ) → decimal i ≡ decimal j → i ≡ j

-- With an address of an ordinary length, the buffer for the name has room, and connections have different names.
pub conn_name_distinct :
    {decimal : ℕ → List ℕ} (name ip_port : List ℕ) (i j : ℕ)
    → IsDecimal decimal
    → length ip_port ≤ 50
    → i < 2147483648
    → j < 2147483648
    → conn_name decimal name ip_port i ≡ conn_name decimal name ip_port j
    → i ≡ j
conn_name_distinct {decimal} name ip_port i j d h k l e =
    let whole : (n : ℕ)
        → n < 2147483648
        → take 63 (codes "-" ++ (ip_port ++ (codes "#" ++ decimal n)))
          ≡ codes "-" ++ (ip_port ++ (codes "#" ++ decimal n)) =
      λ n m.
        take_all 63 (codes "-" ++ (ip_port ++ (codes "#" ++ decimal n)))
          (omega (arith, length-append ip_port (codes "#" ++ decimal n), d.short n m)) in
    let ends = sym (whole i k) ∙ append_cancel name _ _ e ∙ whole j l in
    d.distinct i j (
      append_cancel (codes "#") _ _
        (append_cancel ip_port _ _ (append_cancel (codes "-") _ _ ends)))
