-- ===== src/Index/Apply/Collect.antt =====
-- index.rs: the event loop of `apply_suffix`.
use narshare.Base.{
  ℕ, suc, ◌≤◌, ◌<◌, ◌≡◌, refl, sym, ap, ◌∙◌, ◌⊎◌, inl, inr, none, some, List, [], ◌∷◌, ◌++◌, arith,
  Option-cases, All,
}
use narshare.Facts.{Attestation}
use narshare.Wire.{Wire, Event}
use narshare.Store.{HoldOp}
use narshare.Store.Journal.{Row, IsRun, IsRun-le}
use narshare.Index.Apply.{Plan, collect, push_event, holds_of, attests_of}

pub collect_old :
    (w : Wire) (seq : ℕ) (e : Event) (events : List Event)
    → e.seq ≤ seq
    → collect w seq (e ∷ events) ≡ collect w seq events
unfolding collect
collect_old w seq e events h = ground arith

pub collect_next :
    (w : Wire) (seq : ℕ) (e : Event) (events : List Event)
    → e.seq ≡ suc seq
    → collect w seq (e ∷ events) ≡ push_event w e (collect w e.seq events)
unfolding collect
collect_next w seq e events h = ground arith

pub collect_gap :
    (w : Wire) (seq : ℕ) (e : Event) (events : List Event)
    → suc seq < e.seq
    → collect w seq (e ∷ events) ≡ none
unfolding collect
collect_gap w seq e events h = ground arith

abbrev pub Place : ℕ → ℕ → Type 0
Place seq s = (s ≤ seq) ⊎ (s ≡ suc seq) ⊎ (suc seq < s)

pub place : (seq s : ℕ) → Place seq s
place seq s = ground arith

-- What is collected continues the journal.
pub collect-IsRun :
    (w : Wire) (seq : ℕ) (events : List Event) (p : Plan)
    → collect w seq events ≡ some p
    → IsRun seq p.journal p.seq
collect-IsRun w seq [] p h = unfold collect in ground arith
collect-IsRun w seq (e ∷ events) p h = elim (place seq e.seq) [
  | inl old ↦ collect-IsRun w seq events p (sym (collect_old w seq e events old) ∙ h)
  | inr (inl next) ↦ elim (Option-cases (collect w e.seq events)) [
    | inl q ↦ cc (collect_next w seq e events next)
    | inr (q, r) ↦
        ground (arith, collect_next w seq e events next, collect-IsRun w e.seq events q r)
  ]
  | inr (inr gap) ↦ cc (collect_gap w seq e events gap)
]

pub collect-le :
    (w : Wire) (seq : ℕ) (events : List Event) (p : Plan)
    → collect w seq events ≡ some p
    → seq ≤ p.seq
collect-le w seq events p h = IsRun-le seq p.seq p.journal (collect-IsRun w seq events p h)

All-seen :
    (w : Wire) (seq : ℕ) (events : List Event) (p : Plan)
    → collect w seq events ≡ some p
    → All (λ (e : Event). e.seq ≤ p.seq) events
All-seen w seq [] p h = tt
All-seen w seq (e ∷ events) p h = elim (place seq e.seq) [
  | inl old ↦
      let r = sym (collect_old w seq e events old) ∙ h in
      (omega (arith, collect-le w seq events p r), All-seen w seq events p r)
  | inr (inl next) ↦ elim (Option-cases (collect w e.seq events)) [
    | inl q ↦ cc (collect_next w seq e events next)
    | inr (q, r) ↦
        let s : q.seq ≡ p.seq = ground (arith, collect_next w seq e events next) in
        (omega (arith, collect-le w e.seq events q r), rw s at (All-seen w e.seq events q r))
  ]
  | inr (inr gap) ↦ cc (collect_gap w seq e events gap)
]

abbrev pub nothing : ℕ → Plan
nothing seq = record { seq = seq; journal = []; holds = []; attests = [] }

collect_of_seen :
    (w : Wire) (seq : ℕ) (events : List Event)
    → All (λ (e : Event). e.seq ≤ seq) events
    → collect w seq events ≡ some (nothing seq)
collect_of_seen w seq [] h = unfold collect in refl
collect_of_seen w seq (e ∷ events) h =
    collect_old w seq e events h.0 ∙ collect_of_seen w seq events h.1

-- Once applied, the same events collect to nothing.
pub collect_again :
    (w : Wire) (seq : ℕ) (events : List Event) (p : Plan)
    → collect w seq events ≡ some p
    → collect w p.seq events ≡ some (nothing p.seq)
collect_again w seq events p h = collect_of_seen w p.seq events (All-seen w seq events p h)

-- Events whose sequence numbers run from `a + 1` to `b`.
abbrev pub EventRun : ℕ → List Event → ℕ → Type 0
EventRun a [] b = a ≡ b
EventRun a (e ∷ events) b = (e.seq ≡ suc a) × EventRun e.seq events b

abbrev pub rows_of : Wire → List Event → List Row
rows_of w [] = []
rows_of w (e ∷ events) = (e.seq, w.encode_event e) ∷ rows_of w events

abbrev pub all_holds : List Event → List HoldOp
all_holds [] = []
all_holds (e ∷ events) = holds_of e.op ++ all_holds events

abbrev pub all_attests : List Event → List Attestation
all_attests [] = []
all_attests (e ∷ events) = attests_of e.op ++ all_attests events

-- A run that connects is collected whole.
pub collect-EventRun :
    (w : Wire) (a b : ℕ) (events : List Event)
    → EventRun a events b
    → collect w a events
      ≡ some (record {
        seq = b;
        journal = rows_of w events;
        holds = all_holds events;
        attests = all_attests events;
      })
collect-EventRun w a b [] h = unfold collect in ground arith
collect-EventRun w a b (e ∷ events) h =
    collect_next w a e events h.0 ∙ ap (push_event w e) (collect-EventRun w e.seq b events h.1)
