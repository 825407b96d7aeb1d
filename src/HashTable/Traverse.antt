-- ===== src/HashTable/Traverse.antt =====
-- The traversals of km-shared/hash_table.c: they visit each item once, in the order of the buckets.
use mathlib.Core.List.{flatten, foldl}
use irpmon.Common.{
  ◌≡◌, refl, ap, sym, ◌∙◌, List, [], ◌∷◌, ◌++◌, some, Bool, true, false, if◌then◌else◌, Bool-cases,
  inl, inr,
}
use irpmon.HashTable.{
  HashTable, perform_chain, perform_buckets, perform, feedback_chain, feedback_buckets,
  perform_with_feedback, clear_buckets, clear,
}

module _ {I S : Type 0} where
  perform_chain-foldl :
      (callback : S → I → S) (c : List I) (s : S) → perform_chain callback c s ≡ foldl callback s c
  unfolding perform_chain
  perform_chain-foldl callback [] s = refl
  perform_chain-foldl callback (x ∷ c) s = perform_chain-foldl callback c (callback s x)

  perform_chain-append :
      (callback : S → I → S) (b c : List I) (s : S)
      → perform_chain callback (b ++ c) s ≡ perform_chain callback c (perform_chain callback b s)
  unfolding perform_chain
  perform_chain-append callback [] c s = refl
  perform_chain-append callback (x ∷ b) c s = perform_chain-append callback b c (callback s x)

  perform_buckets-flatten :
      (callback : S → I → S) (bs : List (List I)) (s : S)
      → perform_buckets callback bs s ≡ perform_chain callback (flatten bs) s
  unfolding perform_buckets perform_chain flatten
  perform_buckets-flatten callback [] s = refl
  perform_buckets-flatten callback (b ∷ bs) s =
      perform_buckets-flatten callback bs _ ∙ sym (perform_chain-append callback b (flatten bs) s)

  -- HashTablePerform calls the callback for every item, each once, bucket by bucket.
  pub perform-foldl :
      (callback : S → I → S) (t : HashTable I) (s : S)
      → perform callback t s ≡ foldl callback s (flatten t.buckets)
  unfolding perform
  perform-foldl callback t s =
      perform_buckets-flatten callback t.buckets s ∙ perform_chain-foldl callback _ s

  feedback_chain-append :
      (callback : S → I → S × Bool) (b c : List I) (s : S)
      → (feedback_chain callback (b ++ c) s).0 ≡ (
          if (feedback_chain callback b s).1
          then (feedback_chain callback b s).0
          else (feedback_chain callback c (feedback_chain callback b s).0).0)
  unfolding feedback_chain
  feedback_chain-append callback [] c s = refl
  feedback_chain-append callback (x ∷ b) c s = elim (Bool-cases (callback s x).1) [
    | inl e ↦ rw (e, feedback_chain) (feedback_chain-append callback b c (callback s x).0)
    | inr e ↦ rw (e, feedback_chain)
  ]

  feedback_buckets-flatten :
      (callback : S → I → S × Bool) (bs : List (List I)) (s : S)
      → feedback_buckets callback bs s ≡ (feedback_chain callback (flatten bs) s).0
  unfolding feedback_buckets feedback_chain flatten
  feedback_buckets-flatten callback [] s = refl
  feedback_buckets-flatten callback (b ∷ bs) s =
      let r = feedback_chain callback b s in
      let whole = feedback_chain-append callback b (flatten bs) s in
      elim (Bool-cases r.1) [
        | inl e ↦
            rw (e, feedback_buckets)
              (sym (
                whole
                ∙ ap (λ c. if c then r.0 else (feedback_chain callback (flatten bs) r.0).0) e))
        | inr e ↦
            rw (e, feedback_buckets)
              (feedback_buckets-flatten callback bs r.0
                ∙ sym (
                    whole
                    ∙ ap (λ c. if c then r.0 else (feedback_chain callback (flatten bs) r.0).0) e))
      ]

  -- HashTablePerformWithFeedback acts as one walk over all the items in the order of the buckets
  -- that stops for good at the first callback that answers FALSE.
  pub feedback-flatten :
      (callback : S → I → S × Bool) (t : HashTable I) (s : S)
      → perform_with_feedback callback t s ≡ (feedback_chain callback (flatten t.buckets) s).0
  unfolding perform_with_feedback
  feedback-flatten callback t s = feedback_buckets-flatten callback t.buckets s

  clear_buckets-foldl :
      (free : S → I → S) (bs : List (List I)) (s : S)
      → clear_buckets true (some free) bs s ≡ perform_buckets free bs s
  unfolding clear_buckets perform_buckets
  clear_buckets-foldl free [] s = refl
  clear_buckets-foldl free (b ∷ bs) s = clear_buckets-foldl free bs (perform_chain free b s)

  clear_buckets-keep :
      (free : S → I → S) (bs : List (List I)) (s : S) → clear_buckets false (some free) bs s ≡ s
  unfolding clear_buckets
  clear_buckets-keep free [] s = refl
  clear_buckets-keep free (b ∷ bs) s = clear_buckets-keep free bs s

  -- HashTableClear with a free function calls it for every item once if it is asked to, and for no
  -- item otherwise.
  pub clear-frees :
      (call_free : Bool) (free : S → I → S) (t : HashTable I) (s : S)
      → (clear call_free (some free) t s).1
        ≡ (if call_free then foldl free s (flatten t.buckets) else s)
  unfolding clear
  clear-frees true free t s =
      clear_buckets-foldl free t.buckets s
      ∙ perform_buckets-flatten free t.buckets s
      ∙ perform_chain-foldl free _ s
  clear-frees false free t s = clear_buckets-keep free t.buckets s
