-- ===== src/Ttg/Tree/CountingSort.antt =====
-- The counting sort of the build against eight lists that the particles are pushed to.
use amt_bh_benchmark.Base.{
  ℕ, zero, suc, ◌+◌, ◌≤◌, ◌<◌, ◌≡◌, refl, sym, ap, ap₂, ◌∙◌, List, [], ◌∷◌, ◌++◌, length, get_or,
  take, drop, change_at, copies, concat, append_assoc, length-append, length-change_at,
  change_at_self, length-copies, arith,
}
use amt_bh_benchmark.Ttg.Tree.{count_octants, scatter, range_begins, partition}

suc_commutes :
    (counts : List ℕ) (i j : ℕ)
    → change_at (change_at counts i suc) j suc ≡ change_at (change_at counts j suc) i suc
suc_commutes [] i j = refl
suc_commutes (c ∷ cs) zero zero = refl
suc_commutes (c ∷ cs) zero (suc j) = refl
suc_commutes (c ∷ cs) (suc i) zero = refl
suc_commutes (c ∷ cs) (suc i) (suc j) = ap (λ ds. c ∷ ds) (suc_commutes cs i j)

-- The sum of the counts.
unfoldable pub total : List ℕ → ℕ
total [] = 0
total (c ∷ cs) = c + total cs

total-change_at : (cs : List ℕ) (i : ℕ) → i < length cs → total (change_at cs i suc) ≡ total cs + 1
unfolding total
total-change_at [] i h = absurd (omega arith)
total-change_at (c ∷ cs) zero h = omega arith
total-change_at (c ∷ cs) (suc i) h = omega (arith, total-change_at cs i (omega arith))

pub total-copies : (n : ℕ) → total (copies n 0) ≡ 0
unfolding total
total-copies zero = refl
total-copies (suc n) = omega (arith, total-copies n)

module _ {P : Type 0} where
  -- push_back onto the list of the particle's octant.
  unfoldable pub push_all : (P → ℕ) → List P → List (List P) → List (List P)
  push_all octant [] buckets = buckets
  push_all octant (p ∷ ps) buckets =
      push_all octant ps (change_at buckets (octant p) (λ b. b ++ p ∷ []))

  -- Each bucket with the room that is left behind it, and where its next particle goes.
  lay : List (List P) → List (List P) → List P
  lay [] rs = []
  lay (f ∷ fs) [] = []
  lay (f ∷ fs) (r ∷ rs) = f ++ (r ++ lay fs rs)

  cursors : ℕ → List (List P) → List (List P) → List ℕ
  cursors b [] rs = []
  cursors b (f ∷ fs) [] = []
  cursors b (f ∷ fs) (r ∷ rs) = (b + length f) ∷ cursors (b + length f + length r) fs rs

  lengths : List (List P) → List ℕ
  lengths [] = []
  lengths (r ∷ rs) = length r ∷ lengths rs

  change_at-middle :
      (xs : List P) (y : P) (ys : List P) (f : P → P)
      → change_at (xs ++ y ∷ ys) (length xs) f ≡ xs ++ f y ∷ ys
  change_at-middle [] y ys f = refl
  change_at-middle (x ∷ xs) y ys f = ap (λ zs. x ∷ zs) (change_at-middle xs y ys f)

  -- A write at the cursor of an octant that has room.
  write_lay :
      (o : ℕ) (p : P) (pre : List P) (fs rs : List (List P))
      → 0 < get_or (lengths rs) o 0
      → o < length fs
      → change_at (pre ++ lay fs rs) (get_or (cursors (length pre) fs rs) o 0) (λ old. p)
        ≡ pre ++ lay (change_at fs o (λ b. b ++ p ∷ [])) (change_at rs o (drop 1))
  unfolding lay cursors lengths
  write_lay o p pre [] rs room low = absurd (omega arith)
  write_lay zero p pre (f ∷ fs) [] room low = absurd (omega arith)
  write_lay (suc o) p pre (f ∷ fs) [] room low = absurd (omega arith)
  write_lay zero p pre (f ∷ fs) ([] ∷ rs) room low = absurd (omega arith)
  write_lay zero p pre (f ∷ fs) ((x ∷ xs) ∷ rs) room low =
      ap₂ (λ l i. change_at l i (λ old. p)) (sym (append_assoc pre f (x ∷ (xs ++ lay fs rs))))
        (sym (length-append pre f))
      ∙ change_at-middle (pre ++ f) x (xs ++ lay fs rs) (λ old. p)
      ∙ append_assoc pre f (p ∷ (xs ++ lay fs rs))
      ∙ ap (λ z. pre ++ z) (sym (append_assoc f (p ∷ []) (xs ++ lay fs rs)))
  write_lay (suc o) p pre (f ∷ fs) (r ∷ rs) room low =
      let lists : pre ++ (f ++ (r ++ lay fs rs)) ≡ (pre ++ (f ++ r)) ++ lay fs rs =
        simp append_assoc in
      let place : length pre + length f + length r ≡ length (pre ++ (f ++ r)) =
        omega (arith, length-append pre (f ++ r), length-append f r) in
      ap₂ (λ l b. change_at l (get_or (cursors b fs rs) o 0) (λ old. p)) lists place
      ∙ write_lay o p (pre ++ (f ++ r)) fs rs room (omega arith)
      ∙ simp append_assoc

  moved_cursor :
      (o b : ℕ) (p : P) (fs rs : List (List P))
      → 0 < get_or (lengths rs) o 0
      → change_at (cursors b fs rs) o suc
        ≡ cursors b (change_at fs o (λ b'. b' ++ p ∷ [])) (change_at rs o (drop 1))
  unfolding cursors lengths
  moved_cursor o b p [] rs room = refl
  moved_cursor zero b p (f ∷ fs) [] room = refl
  moved_cursor (suc o) b p (f ∷ fs) [] room = refl
  moved_cursor zero b p (f ∷ fs) ([] ∷ rs) room = absurd (omega arith)
  moved_cursor zero b p (f ∷ fs) ((x ∷ xs) ∷ rs) room =
      ap₂ (λ i j. i ∷ cursors j fs rs) (omega (arith, length-append f (p ∷ [])))
        (omega (arith, length-append f (p ∷ [])))
  moved_cursor (suc o) b p (f ∷ fs) (r ∷ rs) room =
      ap (λ cs. (b + length f) ∷ cs) (moved_cursor o (b + length f + length r) p fs rs room)

  lengths-drop :
      (o : ℕ) (rs : List (List P)) (counts : List ℕ)
      → lengths rs ≡ change_at counts o suc
      → lengths (change_at rs o (drop 1)) ≡ counts
  unfolding lengths
  lengths-drop o [] [] h = refl
  lengths-drop zero [] (c ∷ cs) h = cc
  lengths-drop (suc o) [] (c ∷ cs) h = cc
  lengths-drop o (r ∷ rs) [] h = cc
  lengths-drop zero ([] ∷ rs) (c ∷ cs) h = absurd (ground (arith, h))
  lengths-drop zero ((x ∷ xs) ∷ rs) (c ∷ cs) h = ground (arith, h)
  lengths-drop (suc o) (r ∷ rs) (c ∷ cs) h =
      let head : length r ≡ c = cc in
      let tail : lengths rs ≡ change_at cs o suc = cc in
      ap₂ (λ m ms. m ∷ ms) head (lengths-drop o rs cs tail)

  count_first :
      (octant : P → ℕ) (ps : List P) (counts : List ℕ) (i : ℕ)
      → count_octants octant ps (change_at counts i suc)
        ≡ change_at (count_octants octant ps counts) i suc
  unfolding count_octants
  count_first octant [] counts i = refl
  count_first octant (p ∷ ps) counts i =
      ap (count_octants octant ps) (suc_commutes counts i (octant p))
      ∙ count_first octant ps (change_at counts (octant p) suc) i

  length-count_octants :
      (octant : P → ℕ) (ps : List P) (counts : List ℕ)
      → length (count_octants octant ps counts) ≡ length counts
  unfolding count_octants
  length-count_octants octant [] counts = refl
  length-count_octants octant (p ∷ ps) counts =
      length-count_octants octant ps (change_at counts (octant p) suc)
      ∙ length-change_at counts (octant p) suc

  all_full :
      (fs rs : List (List P)) (n : ℕ)
      → lengths rs ≡ copies n 0
      → length fs ≡ n
      → lay fs rs ≡ concat fs
  unfolding lay lengths
  all_full [] rs n h k = refl
  all_full (f ∷ fs) [] zero h k = absurd (omega arith)
  all_full (f ∷ fs) [] (suc n) h k = cc
  all_full (f ∷ fs) (r ∷ rs) zero h k = cc
  all_full (f ∷ fs) ([] ∷ rs) (suc n) h k =
      let tail : lengths rs ≡ copies n 0 = cc in
      ap (λ z. f ++ z) (all_full fs rs n tail (omega arith))
  all_full (f ∷ fs) ((x ∷ xs) ∷ rs) (suc n) h k = absurd (ground (arith, h))

  -- The rest of the particles fills the room that is left for them.
  scatter-lay :
      (octant : P → ℕ) (n : ℕ)
      → ((p : P) → octant p < n)
      → (ps : List P) (fs rs : List (List P)) → length fs ≡ n
      → lengths rs ≡ count_octants octant ps (copies n 0)
      → scatter octant ps (cursors 0 fs rs) (lay fs rs) ≡ concat (push_all octant ps fs)
  unfolding scatter push_all count_octants
  scatter-lay octant n low [] fs rs len room = all_full fs rs n room len
  scatter-lay octant n low (p ∷ ps) fs rs len room =
      let o = octant p in
      let more : lengths rs ≡ change_at (count_octants octant ps (copies n 0)) o suc =
        room ∙ count_first octant ps (copies n 0) o in
      let some_room : 0 < get_or (lengths rs) o 0 =
        rw
          (
            more,
            change_at_self (count_octants octant ps (copies n 0)) o suc 0 (
                omega (
                  arith,
                  low p,
                  length-count_octants octant ps (copies n 0),
                  length-copies {A = ℕ} n 0,
                )),
          )
          (omega arith) in
      ap₂ (λ c l. scatter octant ps c l) (moved_cursor o 0 p fs rs some_room)
        (write_lay o p [] fs rs some_room (omega (arith, low p)))
      ∙ scatter-lay octant n low ps (change_at fs o (λ b. b ++ p ∷ [])) (change_at rs o (drop 1))
          (length-change_at fs o (λ b. b ++ p ∷ []) ∙ len)
          (lengths-drop o rs (count_octants octant ps (copies n 0)) more)

  pub total-count_octants :
      (octant : P → ℕ) (ps : List P) (counts : List ℕ)
      → ((p : P) → octant p < length counts)
      → total (count_octants octant ps counts) ≡ length ps + total counts
  unfolding count_octants
  total-count_octants octant [] counts low = omega arith
  total-count_octants octant (p ∷ ps) counts low =
      let same : length (change_at counts (octant p) suc) ≡ length counts =
        length-change_at counts (octant p) suc in
      omega (
        arith,
        total-count_octants octant ps (change_at counts (octant p) suc)
            (λ q. omega (arith, low q, same)),
        total-change_at counts (octant p) (low p),
      )

  split : List ℕ → List P → List (List P)
  split [] xs = []
  split (c ∷ cs) xs = take c xs ∷ split cs (drop c xs)

  pub length-take_le : (c : ℕ) (xs : List P) → c ≤ length xs → length (take c xs) ≡ c
  length-take_le zero xs h = refl
  length-take_le (suc c) [] h = absurd (omega arith)
  length-take_le (suc c) (x ∷ xs) h = ap suc (length-take_le c xs (omega arith))

  pub length-drop_add : (c : ℕ) (xs : List P) → c ≤ length xs → c + length (drop c xs) ≡ length xs
  length-drop_add zero xs h = omega arith
  length-drop_add (suc c) [] h = absurd (omega arith)
  length-drop_add (suc c) (x ∷ xs) h = omega (arith, length-drop_add c xs (omega arith))

  pub take-append-drop : (c : ℕ) (xs : List P) → take c xs ++ drop c xs ≡ xs
  take-append-drop zero xs = refl
  take-append-drop (suc c) [] = refl
  take-append-drop (suc c) (x ∷ xs) = ap (λ z. x ∷ z) (take-append-drop c xs)

  lengths-split : (cs : List ℕ) (xs : List P) → total cs ≤ length xs → lengths (split cs xs) ≡ cs
  unfolding lengths split total
  lengths-split [] xs h = refl
  lengths-split (c ∷ cs) xs h =
      ap₂ (λ m ms. m ∷ ms) (length-take_le c xs (omega arith))
        (lengths-split cs (drop c xs) (omega (arith, length-drop_add c xs (omega arith))))

  lay-split :
      (cs : List ℕ) (xs : List P)
      → total cs ≡ length xs
      → lay (copies (length cs) []) (split cs xs) ≡ xs
  unfolding lay split total
  lay-split [] [] h = refl
  lay-split [] (x ∷ xs) h = absurd (omega arith)
  lay-split (c ∷ cs) xs h =
      ap (λ z. take c xs ++ z)
        (lay-split cs (drop c xs) (omega (arith, length-drop_add c xs (omega arith))))
      ∙ take-append-drop c xs

  cursors-split :
      (b : ℕ) (cs : List ℕ) (xs : List P)
      → total cs ≤ length xs
      → cursors b (copies (length cs) []) (split cs xs) ≡ range_begins b cs
  unfolding cursors split total range_begins
  cursors-split b [] xs h = refl
  cursors-split b (c ∷ cs) xs h =
      ap₂ (λ i j. i ∷ cursors j (copies (length cs) []) (split cs (drop c xs))) (omega arith)
        (omega (arith, length-take_le c xs (omega arith)))
      ∙ ap (λ z. b ∷ z)
          (cursors-split (b + c) cs (drop c xs) (omega (arith, length-drop_add c xs (omega arith))))

  -- Whatever scratch_ held before, counting, placing and copying back sorts a range as pushing each
  -- particle to the list of its octant, and putting the eight lists together, does.
  pub partition-concat :
      (octant : P → ℕ) (ps scratch : List P)
      → ((p : P) → octant p < 8)
      → length scratch ≡ length ps
      → partition octant ps scratch ≡ concat (push_all octant ps (copies 8 []))
  unfolding partition
  partition-concat octant ps scratch low same =
      let counts = count_octants octant ps (copies 8 0) in
      let eight : length counts ≡ 8 = length-count_octants octant ps (copies 8 0) in
      let sum : total counts ≡ length scratch =
        total-count_octants octant ps (copies 8 0) low ∙ omega (arith, same, total-copies 8) in
      ap₂ (λ c l. scatter octant ps c l) (sym (cursors-split 0 counts scratch (omega (arith, sum))))
        (sym (lay-split counts scratch sum))
      ∙ scatter-lay octant 8 low ps (copies (length counts) []) (split counts scratch)
          (length-copies {A = List P} (length counts) [] ∙ eight)
          (lengths-split counts scratch (omega (arith, sum)))
      ∙ ap (λ (m : ℕ). concat (push_all octant ps (copies m []))) eight
