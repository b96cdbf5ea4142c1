-- ===== src/Net/TcpServer/Queues.antt =====
-- net/TcpServer.cc: the first functor of a queue is taken off and called.
use slack.Base.{
  ℕ, ◌≡◌, List, [], ◌∷◌, true, false, Option, some, none, ◌==◌, arith, refl, sym, ap, ◌∙◌,
  Bool-cases, inl, inr, Returns,
}
use slack.Net.TcpServer.{Task, TcpServer, update_at, run_next, run_first}
use slack.Net.TcpServer.Update.{task_id, mine, eq_refl, IsDecimal}
use slack.Net.TcpServer.Invariant.{Stage, next_task, if_there, Fine, in_use, Inv, hold}
use slack.Net.TcpServer.Functors.{run_task_lem}

head_of :
    (o : Option (ℕ × Task)) (l : ℕ) (t : Task) (us : List Task)
    → t ∷ us ≡ if_there o l
    → (o ≡ some (l, t)) × (us ≡ [])
head_of none l t us h = absurd (cc)
head_of (some (m, u)) l t us h = elim (Bool-cases (m == l)) [
  | inl e ↦
      let here : m ≡ l = ground (arith, e) in
      let same_list : t ∷ us ≡ u ∷ [] = h ∙ rw e refl in
      let same_task : t ≡ u = cc in (rw (here, same_task) refl, cc)
  | inr e ↦ let nothing : t ∷ us ≡ [] = h ∙ rw e refl in absurd (cc)
]

-- The queue of loop `l` without its first functor.
abbrev pop : TcpServer → ℕ → List Task → TcpServer
pop s l ts = record s { pending = update_at s.pending l ts }

module _ (s : TcpServer) (l : ℕ) (t : Task) (ts : List Task) (e : s.pending l ≡ t ∷ ts) where
  others :
      (j : ℕ)
      → (task_id t == j) ≡ false
      → (m : ℕ) → mine j ((pop s l ts).pending m) ≡ mine j (s.pending m)
  others j h m = elim (Bool-cases (l == m)) [
    | inl k ↦
        let same_loop : l ≡ m = ground (arith, k) in
        let first : mine j (t ∷ ts) ≡ mine j ts = rw h refl in
        rw k (sym first ∙ ap (mine j) (sym e ∙ ap s.pending same_loop))
    | inr k ↦ rw k refl
  ]

  own : mine (task_id t) (s.pending l) ≡ t ∷ mine (task_id t) ts
  own = ap (mine (task_id t)) e ∙ rw (eq_refl (task_id t)) refl

  used : {decimal : ℕ → List ℕ} → Inv decimal s 0 → in_use s (task_id t) ≡ true
  used v = elim (Bool-cases (in_use s (task_id t))) [
    | inl u ↦ u
    | inr u ↦
        let nothing : t ∷ mine (task_id t) ts ≡ [] = sym own ∙ v.unused (task_id t) u l in
        absurd (cc)
  ]

  pop-Inv : {decimal : ℕ → List ℕ} → Inv decimal s 0 → Inv decimal (pop s l ts) (task_id t)
  pop-Inv v =
      let u = used v in
      let w = hold (task_id t) v in
      record {
        pool_ok = v.pool_ok;
        short = v.short;
        small = v.small;
        positive = v.positive;
        unused = λ j n m.
            others j
              (elim (Bool-cases (task_id t == j)) [
                | inl k ↦ absurd (ground (arith, u, n, k))
                | inr k ↦ k
              ])
              m
            ∙ v.unused j n m;
        named = v.named;
        fine = λ j n h.
            let (st, f) = w.fine j n h in
            (
              st,
              record {
                tasks_ok = λ m. others j h m ∙ f.tasks_ok m;
                state_ok = f.state_ok;
                map_ok = f.map_ok;
              },
            );
      }

  pop-Fine :
      {decimal : ℕ → List ℕ}
      → Inv decimal s 0
      → (st : Stage) × (next_task st (task_id t) (s.conns (task_id t)).loop s.base_loop
          ≡ some (l, t))
        × Fine false (pop s l ts) (task_id t) st
  pop-Fine v =
      let u = used v in
      let (st, f) = v.fine (task_id t) u (ground (arith, u)) in
      let (n, r) =
        head_of (next_task st (task_id t) (s.conns (task_id t)).loop s.base_loop) l t
          (mine (task_id t) ts) (sym own ∙ f.tasks_ok l) in
      (
        st,
        n,
        record {
          tasks_ok = λ m. elim (Bool-cases (l == m)) [
            | inl k ↦ rw k r
            | inr k ↦
                let elsewhere : if_there (some (l, t)) m ≡ [] = rw k refl in
                rw k (f.tasks_ok m ∙ ap (λ o. if_there o m) n ∙ elsewhere)
          ];
          state_ok = f.state_ok;
          map_ok = f.map_ok;
        },
      )

run_first_lem :
    {decimal : ℕ → List ℕ} (d : IsDecimal decimal) (s : TcpServer) (l : ℕ) (ts : List Task)
    → s.pending l ≡ ts
    → Inv decimal s 0
    → Returns (run_first s l ts) (λ t. Inv decimal t 0)
run_first_lem d s l [] e v = v
run_first_lem d s l (t ∷ ts) e v =
    let (st, n, f) = pop-Fine s l t ts e v in
    run_task_lem d (pop s l ts) l l t st (used s l t ts e v) (pop-Inv s l t ts e v) n f (eq_refl l)

pub run_next_lem :
    {decimal : ℕ → List ℕ} (d : IsDecimal decimal) (s : TcpServer) (l : ℕ)
    → Inv decimal s 0
    → Returns (run_next s l) (λ t. Inv decimal t 0)
unfolding run_next
run_next_lem d s l v = run_first_lem d s l (s.pending l) refl v
