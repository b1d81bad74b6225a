-- ===== src/Charm/Requests/Asked.antt =====
-- How often a PE asks for a key: its messages, and the flag `sent` of the key's entry.
use amt_bh_benchmark.Base.{
  ℕ, ◌+◌, ◌≡◌, refl, sym, ap, ◌∙◌, true, ◌&&◌, ◌==◌, if◌then◌else◌, List, [], ◌∷◌, arith,
  Bool-cases, inl, inr,
}
use amt_bh_benchmark.Charm.Requests.{
  What, same_what, Request, RequestMsg, is_for, find_request, put_request,
}
use amt_bh_benchmark.Charm.Requests.Table.{is_for_self, is_for-eq, find-put, find-put_other}

-- The messages that ask for a key.
unfoldable pub messages : What → ℕ → List RequestMsg → ℕ
messages what key [] = 0
messages what key (m ∷ ms) =
    if same_what what m.what && (key == m.key)
    then messages what key ms + 1
    else messages what key ms

-- One message for a key that is marked as sent, and none for another.
abbrev pub AsksOnce : List Request → List RequestMsg → Type 0
AsksOnce qs out =
    (what : What) (key : ℕ)
    → messages what key out ≡ (if (find_request what key qs).sent then 1 else 0)

pub AsksOnce-same :
    (qs qs' : List Request) (out : List RequestMsg)
    → ((what : What) (key : ℕ) → (find_request what key qs').sent ≡ (find_request what key qs).sent)
    → AsksOnce qs out
    → AsksOnce qs' out
AsksOnce-same qs qs' out same h what key = rw (same what key) (h what key)

module _ (what : What) (key : ℕ) (r : Request) (qs : List Request)
    (for_key : is_for what key r ≡ true) where
  -- An entry that keeps its flag.
  pub put-AsksOnce :
      (out : List RequestMsg)
      → r.sent ≡ (find_request what key qs).sent
      → AsksOnce qs out
      → AsksOnce (put_request what key r qs) out
  put-AsksOnce out e = AsksOnce-same qs (put_request what key r qs) out λ w k.
      elim (Bool-cases (is_for w k r)) [
        | inr other ↦ ap (λ (q : Request). q.sent) (find-put_other what key r w k qs for_key other)
        | inl same ↦
            let (we, ke) = is_for-eq w k r same in
            let (we', ke') = is_for-eq what key r for_key in
            rw (we ∙ sym we', ke ∙ sym ke')
              (ap (λ (q : Request). q.sent) (find-put what key r qs for_key) ∙ e)
      ]

  message_for : (w : What) (k : ℕ) → is_for w k r ≡ (same_what w what && (k == key))
  unfolding is_for
  message_for w k = let (we', ke') = is_for-eq what key r for_key in rw (we', ke') refl

  -- The message and the flag, the first time the key is asked for.
  pub file-AsksOnce :
      (owner : ℕ) (out : List RequestMsg)
      → r.sent ≡ true
      → AsksOnce qs out
      → AsksOnce (put_request what key r qs) (
          if (find_request what key qs).sent
          then out
          else record { what = what; key = key; owner = owner } ∷ out)
  unfolding messages
  file-AsksOnce owner out marked h w k = elim (Bool-cases (is_for w k r)) [
    | inr other ↦
        rw (find-put_other what key r w k qs for_key other)
          (ground (arith, message_for w k, other, h w k))
    | inl same ↦
        let (we, ke) = is_for-eq w k r same in
        let (we', ke') = is_for-eq what key r for_key in
        rw (we ∙ sym we', ke ∙ sym ke')
          (rw (find-put what key r qs for_key, marked)
            (ground (arith, is_for_self r, message_for what key, for_key, h what key)))
  ]
