-- ===== src/Charm/Requests/Steady.antt =====
-- The counters of a PE between two messages, and while it handles one.
pub mod Gravity
pub mod Delivery
pub mod Loop
pub mod Receive
pub mod Reply
use amt_bh_benchmark.Base.{
  ℕ, zero, suc, ◌+◌, ◌-◌, ◌≤◌, ◌<◌, ◌≡◌, ◌≢◌, refl, sym, ap, subst, ◌∙◌, Bool, true, false, ◌==◌,
  if◌then◌else◌, Option, none, some, List, [], ◌∷◌, ◌++◌, length, All, arith, Bool-cases, ◌⊎◌, inl,
  inr,
}
use amt_bh_benchmark.Base.Int.{ℤ, pos, negsuc, ◌+ℤ◌, ◌-ℤ◌, eqb_ℤ}
use amt_bh_benchmark.Charm.Ownership.{NodeType}
use amt_bh_benchmark.Charm.Tree.{NodeCore, Node, Nodes, node, none_left, child}
use amt_bh_benchmark.Charm.Requests.{
  What, nodes, particles, Requestor, Request, State, Pe, find_request, is_local, set_state,
  complete, gravity_done, decr_pending,
}
use amt_bh_benchmark.Charm.Requests.Handlers.{worker_done, finish_if_complete}
use amt_bh_benchmark.Charm.Requests.Asked.{AsksOnce}
use amt_bh_benchmark.Charm.Requests.Table.{waiting, IsTable, IsAsked}
use amt_bh_benchmark.Charm.Requests.Walked.{Walked, set_state_own, set_state_others}
use amt_bh_benchmark.Charm.Requests.Sound.{answered, IsSound}
use amt_bh_benchmark.Charm.Requests.Sound.Same.{IsSound-same}

unfoldable pub times : ℕ → List ℕ → ℕ
times t [] = 0
times t (u ∷ us) = if u == t then times t us + 1 else times t us

-- 1 for 0, and 0 otherwise; and the other way round.
unfoldable pub if_nothing : ℕ → ℕ
if_nothing zero = 1
if_nothing (suc n) = 0

unfoldable pub if_any : ℕ → ℕ
if_any zero = 0
if_any (suc n) = 1

-- The groups that a State has not walked.
unfoldable pub left : {R : Type 0} → ℕ → Pe R → ℕ
left t pe = length (pe.walk_groups t) - (pe.states t).current

-- What a State waits for.
abbrev pub owed : {R : Type 0} → ℕ → Pe R → ℕ
owed t pe = left t pe + waiting t pe.requests

pub left-same :
    {R : Type 0} (u : ℕ) (pe pe' : Pe R)
    → pe'.walk_groups ≡ pe.walk_groups
    → (pe'.states u).current ≡ (pe.states u).current
    → left u pe' ≡ left u pe
unfolding left
left-same u pe pe' g c = rw (g, c) refl

pos_plus : (a b : ℕ) → pos a +ℤ pos b ≡ pos (a + b)
unfolding ◌+ℤ◌
pos_plus a b = ground arith

if_nothing-zero : (m : ℕ) → 0 < m → if_nothing m ≡ 0
unfolding if_nothing
if_nothing-zero zero h = absurd (omega arith)
if_nothing-zero (suc m) h = refl

pub same_or_other : (u t : ℕ) → (u ≡ t) ⊎ (u ≢ t)
same_or_other u t = elim (Bool-cases (u == t)) [
  | inl same ↦ inl (ground (arith, same))
  | inr other ↦ inr (λ e. ground (arith, other, e))
]

pos_minus : (a b : ℕ) → pos (a + b) -ℤ pos b ≡ pos a
unfolding ◌-ℤ◌
pos_minus a b = ground arith

pub decr-current :
    {R : Type 0} (t extra : ℕ) (pe : Pe R) (u : ℕ)
    → ((decr_pending t extra pe).states u).current ≡ (pe.states u).current
unfolding decr_pending
decr-current t extra pe u = elim (same_or_other u t) [
  | inl e ↦ rw e (ap (λ (x : State). x.current) (set_state_own t _ pe))
  | inr other ↦ ap (λ (x : State). x.current) (set_state_others t _ pe u other)
]

module _ {R : Type 0} (log_branch branch_factor my_pe : ℕ) (tp_counts : List ℕ) (n : ℕ) where
  -- For the first n States: `pending` counts the groups that are left and the requestors that wait,
  -- if there are any;
  -- done was called once if there is nothing of either, and else never; a message to go on is
  -- queued, once, if groups are left. A key was asked for once, if at all. No walk waits for an answer that came, but for the keys in Ex.
  pub record IsSteadyBut (Ex : What → ℕ → Type 0) (pe : Pe R) : Type 0 where
    pub counted : (t : ℕ) → t < n → 0 < owed t pe → (pe.states t).pending ≡ pos (owed t pe)
    pub finished : (t : ℕ) → t < n → times t pe.completed ≡ if_nothing (owed t pe)
    pub queued : (t : ℕ) → t < n → times t pe.scheduled ≡ if_any (left t pe)
    pub table : IsTable pe.requests
    pub remote : All IsAsked pe.requests
    pub asks_once : AsksOnce pe.requests pe.outbox
    pub idle :
        (what : What) (key : ℕ)
        → answered what key pe.requests ≡ true
        → ((find_request what key pe.requests).requestors ≡ []) ⊎ Ex what key
    pub sound : IsSound log_branch branch_factor my_pe tp_counts pe.requests 0 pe.root

  -- While the State t, which is owed `extra` more and has k messages queued, is handled.
  pub record IsBusy (Ex : What → ℕ → Type 0) (t extra k : ℕ) (pe : Pe R) : Type 0 where
    pub counted_own : t < n → (pe.states t).pending ≡ pos (owed t pe + extra)
    pub counted : (u : ℕ) → u < n → u ≢ t → 0 < owed u pe → (pe.states u).pending ≡ pos (owed u pe)
    pub unfinished : t < n → times t pe.completed ≡ 0
    pub finished : (u : ℕ) → u < n → u ≢ t → times u pe.completed ≡ if_nothing (owed u pe)
    pub queued_own : t < n → times t pe.scheduled ≡ k
    pub queued : (u : ℕ) → u < n → u ≢ t → times u pe.scheduled ≡ if_any (left u pe)
    pub table : IsTable pe.requests
    pub remote : All IsAsked pe.requests
    pub asks_once : AsksOnce pe.requests pe.outbox
    pub idle :
        (what : What) (key : ℕ)
        → answered what key pe.requests ≡ true
        → ((find_request what key pe.requests).requestors ≡ []) ⊎ Ex what key
    pub sound : IsSound log_branch branch_factor my_pe tp_counts pe.requests 0 pe.root

  -- A walk keeps the counts.
  pub Walked-IsBusy :
      (Ex : What → ℕ → Type 0) (t extra k : ℕ) (base pe : Pe R)
      → IsBusy Ex t extra k base
      → Walked t base pe
      → IsBusy Ex t extra k pe
  Walked-IsBusy Ex t extra k base pe b w =
      let stays : (u : ℕ) → left u pe ≡ left u base =
        λ u. left-same u base pe w.same_groups (w.same_current u) in
      record {
        counted_own = λ low.
            w.pending_own
            ∙ ap (λ z. z +ℤ pos w.more) (b.counted_own low)
            ∙ pos_plus (owed t base + extra) w.more
            ∙ ap pos (omega (arith, stays t, w.waiting_own));
        counted = λ u low other any.
            w.pending_others u other
            ∙ b.counted u low other (omega (arith, any, stays u, w.waiting_others u other))
            ∙ ap pos (omega (arith, stays u, w.waiting_others u other));
        unfinished = λ low. ap (times t) w.same_completed ∙ b.unfinished low;
        finished = λ u low other.
            ap (times u) w.same_completed
            ∙ b.finished u low other
            ∙ ap if_nothing (omega (arith, stays u, w.waiting_others u other));
        queued_own = λ low. ap (times t) w.same_scheduled ∙ b.queued_own low;
        queued = λ u low other.
            ap (times u) w.same_scheduled ∙ b.queued u low other ∙ ap if_any (sym (stays u));
        table = w.table;
        remote = w.remote;
        asks_once = w.asks_once b.asks_once;
        idle = λ what key h.
            let before : answered what key base.requests ≡ true =
              sym (w.same_answered what key) ∙ h in
            rw (w.answered_kept what key before) (b.idle what key before);
        sound = rw w.same_root (
            IsSound-same log_branch branch_factor my_pe tp_counts base.requests pe.requests 0
              base.root w.same_answered b.sound);
      }

  -- The message that is handled is counted as the others are.
  pub IsBusy-start :
      (Ex : What → ℕ → Type 0) (t : ℕ) (pe : Pe R) (sch : List ℕ) (k : ℕ)
      → IsSteadyBut Ex pe
      → (t < n → 0 < owed t pe)
      → (t < n → times t sch ≡ k)
      → ((u : ℕ) → u ≢ t → times u sch ≡ times u pe.scheduled)
      → IsBusy Ex t 0 k (record pe { scheduled = sch })
  unfolding left
  IsBusy-start Ex t pe sch k s some_owed own others = record {
    counted_own = λ low. s.counted t low (some_owed low) ∙ ap pos (omega arith);
    counted = λ u low other any. s.counted u low any;
    unfinished = λ low. s.finished t low ∙ if_nothing-zero (owed t pe) (some_owed low);
    finished = λ u low other. s.finished u low;
    queued_own = own;
    queued = λ u low other. others u other ∙ s.queued u low;
    table = s.table;
    remote = s.remote;
    asks_once = s.asks_once;
    idle = s.idle;
    sound = s.sound;
  }

  pub IsBusy-settle :
      (Ex : What → ℕ → Type 0) (t k : ℕ) (pe : Pe R) (sch calls : List ℕ)
      → IsBusy Ex t 0 k pe
      → (t < n → times t calls ≡ if_nothing (owed t pe))
      → (t < n → times t sch ≡ if_any (left t pe))
      → ((u : ℕ) → u ≢ t → times u calls ≡ times u pe.completed)
      → ((u : ℕ) → u ≢ t → times u sch ≡ times u pe.scheduled)
      → IsSteadyBut Ex (record pe { scheduled = sch; completed = calls })
  unfolding left
  IsBusy-settle Ex t k pe sch calls b own_done own_queue others_done others_queue = record {
    counted = λ u low any. elim (same_or_other u t) [
      | inl e ↦ rw e (b.counted_own (subst (λ v. v < n) e low) ∙ ap pos (omega arith))
      | inr other ↦ b.counted u low other any
    ];
    finished = λ u low. elim (same_or_other u t) [
      | inl e ↦ rw e (own_done (subst (λ v. v < n) e low))
      | inr other ↦ others_done u other ∙ b.finished u low other
    ];
    queued = λ u low. elim (same_or_other u t) [
      | inl e ↦ rw e (own_queue (subst (λ v. v < n) e low))
      | inr other ↦ others_queue u other ∙ b.queued u low other
    ];
    table = b.table;
    remote = b.remote;
    asks_once = b.asks_once;
    idle = b.idle;
    sound = b.sound;
  }

  -- decrPending for what was handled.
  pub IsBusy-decr :
      (Ex : What → ℕ → Type 0) (t extra k : ℕ) (pe : Pe R)
      → IsBusy Ex t extra k pe
      → IsBusy Ex t 0 k (decr_pending t extra pe)
  unfolding decr_pending set_state
  IsBusy-decr Ex t extra k pe b =
      let own : (decr_pending t extra pe).states t
          ≡ record (pe.states t) { pending = (pe.states t).pending -ℤ pos extra } =
        set_state_own t _ pe in
      let stays : (u : ℕ) → left u (decr_pending t extra pe) ≡ left u pe =
        λ u. left-same u pe (decr_pending t extra pe) refl (decr-current t extra pe u) in
      record {
        counted_own = λ low.
            ap (λ (x : State). x.pending) own
            ∙ ap (λ z. z -ℤ pos extra) (b.counted_own low)
            ∙ pos_minus (owed t pe) extra
            ∙ ap pos (omega (arith, stays t));
        counted = λ u low other any.
            ap (λ (x : State). x.pending) (set_state_others t _ pe u other)
            ∙ b.counted u low other (omega (arith, any, stays u))
            ∙ ap pos (omega (arith, stays u));
        unfinished = b.unfinished;
        finished = λ u low other. b.finished u low other ∙ ap if_nothing (omega (arith, stays u));
        queued_own = b.queued_own;
        queued = λ u low other. b.queued u low other ∙ ap if_any (sym (stays u));
        table = b.table;
        remote = b.remote;
        asks_once = b.asks_once;
        idle = b.idle;
        sound = b.sound;
      }
