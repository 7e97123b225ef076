-- ===== src/Engine/Nearest/Top.antt =====
-- The selection loop of `QueryNearestN` of src/engine.cpp keeps the best scores.
use mathlib.Core.List.Permᴰ
use mathlib.Core.List.{Permᴰ}
use chronos_vector.Base.{
  ℕ, ◌+◌, ◌≤◌, ◌<◌, ◌≡◌, refl, ap, sym, subst, ◌∙◌, ◌⊎◌, inl, inr, Bool, true, false, List, [], ◌∷◌,
  ◌++◌, All, All-append, length, length-append, arith, ltb, Bool-cases, append-nil, ltb→lt,
}
use chronos_vector.Engine.Nearest.{Scored, HeapOps, top_step, top_loop, top_k, set_back}
use chronos_vector.Engine.Nearest.Order.{IsOrder, HeapLaws, All-PermD}
use chronos_vector.Engine.Nearest.Best.{
  length-PermD, placed, length-placed, IsBest, set_back-snoc, snoc-PermD, grow_lem, replace_lem,
  keep_lem, beaten_nil,
}

module _ (ops : HeapOps) (cmp : Scored → Scored → Bool) (P : Scored → Type 0) (o : IsOrder cmp P)
    (laws : HeapLaws ops cmp P) (k : ℕ) where
  -- Nothing left out is better than anything kept.
  abbrev Beaten : List Scored → List Scored → Type 0
  Beaten heap out = All (λ t. All (λ x. cmp x t ≡ false) out) heap

  record IsTop (seen heap out : List Scored) : Type 0 where
    heaped : laws.IsHeap heap
    numbers : All P heap
    numbers_out : All P out
    all_seen : Permᴰ (heap ++ out) seen
    size : length heap ≤ k
    full : (length heap ≡ k) ⊎ (out ≡ [])
    beaten : Beaten heap out

  module _ (x : Scored) (seen : List Scored) (px : P x) where
    -- The heap is not full yet.
    grown :
        (heap out : List Scored)
        → IsTop seen heap out
        → length heap < k
        → IsTop (x ∷ seen) (ops.push_heap cmp (heap ++ (x ∷ []))) out
    grown heap out t room =
        let (heaped, perm) = laws.push heap x t.numbers px t.heaped in
        let e : out ≡ [] = elim t.full [ inl h ↦ absurd (omega arith) | inr h ↦ h ] in
        record {
          heaped = heaped;
          numbers = All-PermD P (Permᴰ.symm perm) (All-append P heap (x ∷ []) t.numbers (px, tt));
          numbers_out = t.numbers_out;
          all_seen =
              Permᴰ.trans (Permᴰ.append_right out (Permᴰ.trans perm (snoc-PermD heap x)))
                (Permᴰ.cons refl t.all_seen);
          size = omega (arith, length-PermD perm, length-append heap (x ∷ []));
          full = inr e;
          beaten = subst (Beaten _) (sym e) (beaten_nil cmp _);
        }

    -- The new score displaces the worst one.
    replaced :
        (w : Scored) (h out : List Scored)
        → IsTop seen (w ∷ h) out
        → length (w ∷ h) ≡ k
        → cmp x w ≡ true
        → IsTop (x ∷ seen) (ops.push_heap cmp (set_back (ops.pop_heap cmp (w ∷ h)) x)) (w ∷ out)
    replaced w h out t fulled wins =
        let (ys, popped, heaped_ys, perm_ys) = laws.pop w h t.numbers t.heaped in
        let ps = All-PermD P (Permᴰ.symm perm_ys) t.numbers.1 in
        let (heaped, perm) = laws.push ys x ps px heaped_ys in
        let p = Permᴰ.trans perm (Permᴰ.trans (snoc-PermD ys x) (Permᴰ.cons refl perm_ys)) in
        subst (λ l. IsTop (x ∷ seen) (ops.push_heap cmp l) (w ∷ out))
          (sym (ap (λ l. set_back l x) popped ∙ set_back-snoc ys w x))
          record {
            heaped = heaped;
            numbers = All-PermD P (Permᴰ.symm p) (px, t.numbers.1);
            numbers_out = (t.numbers.0, t.numbers_out);
            all_seen =
                Permᴰ.trans (Permᴰ.append_right (w ∷ out) p)
                  (Permᴰ.cons refl (Permᴰ.trans (Permᴰ.middle w h out) t.all_seen));
            size = omega (arith, length-PermD p);
            full = inl (length-PermD p ∙ fulled);
            beaten =
                All-PermD (λ y. All (λ z. cmp z y ≡ false) (w ∷ out)) (Permᴰ.symm p)
                  (
                    (after, below_new out t.numbers_out t.beaten.0),
                    below h (laws.front w h t.heaped) t.beaten.1,
                  );
          }
      where
        after : cmp w x ≡ false
        after = o.asym x w px t.numbers.0 wins

        below_new :
            (l : List Scored)
            → All P l
            → All (λ z. cmp z w ≡ false) l
            → All (λ z. cmp z x ≡ false) l
        below_new [] ps bs = tt
        below_new (z ∷ l) (p, ps) (b, bs) =
            (o.neg_trans z w x p t.numbers.0 px b after, below_new l ps bs)

        below : (l : List Scored) → All (λ y. cmp w y ≡ false) l → Beaten l out → Beaten l (w ∷ out)
        below [] fs bs = tt
        below (y ∷ l) (f, fs) (b, bs) = ((f, b), below l fs bs)

    -- The new score is left out.
    kept :
        (w : Scored) (h out : List Scored)
        → IsTop seen (w ∷ h) out
        → length (w ∷ h) ≡ k
        → cmp x w ≡ false
        → IsTop (x ∷ seen) (w ∷ h) (x ∷ out)
    kept w h out t fulled loses = record {
      heaped = t.heaped;
      numbers = t.numbers;
      numbers_out = (px, t.numbers_out);
      all_seen = Permᴰ.trans (Permᴰ.middle x (w ∷ h) out) (Permᴰ.cons refl t.all_seen);
      size = t.size;
      full = inl fulled;
      beaten = ((loses, t.beaten.0), below h t.numbers.1 (laws.front w h t.heaped) t.beaten.1);
    }
      where
        below :
            (l : List Scored)
            → All P l
            → All (λ y. cmp w y ≡ false) l
            → Beaten l out
            → Beaten l (x ∷ out)
        below [] ps fs bs = tt
        below (y ∷ l) (p, ps) (f, fs) (b, bs) =
            ((o.neg_trans x w y px t.numbers.0 p loses f, b), below l ps fs bs)

    -- One round, on every branch.
    stepped :
        (heap out : List Scored)
        → IsTop seen heap out
        → 0 < k
        → (out' : List Scored) × IsTop (x ∷ seen) (top_step ops cmp k x heap) out'
    stepped heap out t pos_k = elim (Bool-cases (ltb (length heap) k)) [
      | inl room ↦ (
        out,
        subst (λ l. IsTop (x ∷ seen) l out) (sym (grow_lem ops cmp k x heap room))
            (grown heap out t (ltb→lt (length heap) k room)),
      )
      | inr fulled ↦ full_step heap out t pos_k fulled
    ]
      where
        full_step :
            (heap out : List Scored)
            → IsTop seen heap out
            → 0 < k
            → ltb (length heap) k ≡ false
            → (out' : List Scored) × IsTop (x ∷ seen) (top_step ops cmp k x heap) out'
        full_step [] out t pos_k h = absurd (ground arith)
        full_step (w ∷ l) out t pos_k h =
            let fulled : length (w ∷ l) ≡ k = ground (arith, t.size) in
            elim (Bool-cases (cmp x w)) [
              | inl wins ↦ (
                w ∷ out,
                subst (λ z. IsTop (x ∷ seen) z (w ∷ out)) (sym (replace_lem ops cmp k x w l h wins))
                    (replaced w l out t fulled wins),
              )
              | inr loses ↦ (
                x ∷ out,
                subst (λ z. IsTop (x ∷ seen) z (x ∷ out)) (sym (keep_lem ops cmp k x w l h loses))
                    (kept w l out t fulled loses),
              )
            ]

  -- The whole loop.
  looped :
      (scores : List ℕ) (i : ℕ) (seen heap out : List Scored)
      → All P (placed scores i)
      → 0 < k
      → IsTop seen heap out
      → (out' : List Scored) × IsTop
          (placed scores i ++ seen)
          (top_loop ops cmp k scores i heap)
          out'
  unfolding top_loop placed
  looped [] i seen heap out ps pos_k t = (out, t)
  looped (s ∷ ss) i seen heap out (p, ps) pos_k t =
      let (out₁, t₁) = stepped (s, i) seen p heap out t pos_k in
      let (out₂, t₂) =
        looped ss (i + 1) ((s, i) ∷ seen) (top_step ops cmp k (s, i) heap) out₁ ps pos_k t₁ in
      (
        out₂,
        record {
          heaped = t₂.heaped;
          numbers = t₂.numbers;
          numbers_out = t₂.numbers_out;
          all_seen = Permᴰ.trans t₂.all_seen (Permᴰ.middle (s, i) (placed ss (i + 1)) seen);
          size = t₂.size;
          full = t₂.full;
          beaten = t₂.beaten;
        },
      )

  -- What the selection of `k` scores returns, best first, and what it leaves out.
  pub top_k_lem :
      (scores : List ℕ)
      → All P (placed scores 0)
      → 0 < k
      → k ≤ length scores
      → (rest : List Scored) × IsBest cmp scores k (top_k ops cmp k scores) rest
  unfolding top_k
  top_k_lem scores ps pos_k few =
      let (out, t) = looped scores 0 [] [] [] ps pos_k start in
      let heap = top_loop ops cmp k scores 0 [] in
      let (in_order, perm) = laws.sorts heap t.numbers in
      let all_seen = subst (Permᴰ (heap ++ out)) (append-nil (placed scores 0)) t.all_seen in
      (
        out,
        record {
          count = length-PermD perm ∙ whole heap out t all_seen;
          in_order = in_order;
          same = Permᴰ.trans (Permᴰ.append_right out perm) all_seen;
          beaten = All-PermD (λ y. All (λ z. cmp z y ≡ false) out) (Permᴰ.symm perm) t.beaten;
        },
      )
    where
      start : IsTop [] [] []
      start = record {
        heaped = laws.empty_heap;
        numbers = tt;
        numbers_out = tt;
        all_seen = Permᴰ.nil;
        size = omega arith;
        full = inr refl;
        beaten = tt;
      }

      whole :
          (heap out : List Scored)
          → IsTop (placed scores 0 ++ []) heap out
          → Permᴰ (heap ++ out) (placed scores 0)
          → length heap ≡ k
      whole heap out t perm = elim t.full [
        | inl h ↦ h
        | inr e ↦ omega (
          arith,
          length-PermD perm,
          length-append heap out,
          length-placed scores 0,
          ap length e,
          t.size,
        )
      ]
