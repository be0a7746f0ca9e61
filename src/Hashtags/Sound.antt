-- ===== src/Hashtags/Sound.antt =====
-- Which hashtags the extractor returns.
use k_indexer.Prelude.{
  ℕ, zero, suc, ◌+◌, ◌-◌, ◌≤◌, ◌≡◌, refl, ap, ◌∙◌, Bool, true, false, ◌&&◌, ◌||◌, some, List, [],
  ◌∷◌, arith, length, take, drop, get_elem?, leb, All, Bool-cases, inl, inr, ◌==◌, if◌then◌else◌,
}
use k_indexer.Text.{Text, text_eq, eq_of_text_eq, all}
use k_indexer.Store.Rows.{any, IsUnique}
use k_indexer.Hashtags.{
  Match, TextLibs, is_tag_char, run_length, matches_from, find_iter, valid_before, valid_after,
  tag_of, insert, collect, extract_hashtags,
}

any-text_eq :
    (t s : Text) (ts : List Text) → text_eq t s ≡ true → any (text_eq t) ts ≡ any (text_eq s) ts
any-text_eq t s ts h = ap (λ u. any (text_eq u) ts) (eq_of_text_eq t s h)

any-insert :
    (t s : Text) (ts : List Text)
    → any (text_eq t) (insert s ts) ≡ (text_eq t s || any (text_eq t) ts)
unfolding insert
any-insert t s ts = ground (arith, any-text_eq t s ts)

insert-IsUnique : (t : Text) (ts : List Text) → IsUnique text_eq ts → IsUnique text_eq (insert t ts)
unfolding insert
insert-IsUnique t ts h = ground arith

module _ (libs : TextLibs) (text : Text) where
  -- The match `m` yields the hashtag `t`.
  abbrev pub yields : Text → Match → Bool
  yields t m =
      (valid_before text m && valid_after text m) && text_eq t (libs.to_lowercase (tag_of text m))

  any-collect :
      (t : Text) (ms : List Match) (found : List Text)
      → any (text_eq t) (collect libs text ms found) ≡ (any (text_eq t) found || any (yields t) ms)
  unfolding collect
  any-collect t [] found = ground arith
  any-collect t (m ∷ ms) found = ground (
    arith,
    any-collect t ms (insert (libs.to_lowercase (tag_of text m)) found),
    any-collect t ms found,
    any-insert t (libs.to_lowercase (tag_of text m)) found,
  )

  collect-IsUnique :
      (ms : List Match) (found : List Text)
      → IsUnique text_eq found
      → IsUnique text_eq (collect libs text ms found)
  unfolding collect
  collect-IsUnique [] found h = h
  collect-IsUnique (m ∷ ms) found h =
      collect-IsUnique ms _
        (ground (arith, insert-IsUnique (libs.to_lowercase (tag_of text m)) found h))

  -- The result holds exactly the lower-case tags of those matches that have white space or the
  -- text's start before them, and white space, one of five marks or the text's end behind them; and
  -- it holds none of them twice.
  pub extract_hashtags_exact :
      ((t : Text)
        → any (text_eq t) (extract_hashtags libs text) ≡ any (yields t) (find_iter libs text))
      × IsUnique text_eq (extract_hashtags libs text)
  unfolding extract_hashtags
  extract_hashtags_exact =
      (λ t. any-collect t (find_iter libs text) [], collect-IsUnique (find_iter libs text) [] tt)

drop-head :
    (pos : ℕ) (text : Text) (c : ℕ) (s : Text)
    → drop pos text ≡ c ∷ s
    → (get_elem? text pos ≡ some c) × (drop (suc pos) text ≡ s)
drop-head zero [] c s h = absurd (cc)
drop-head zero (x ∷ text) c s h = (cc, cc)
drop-head (suc pos) [] c s h = absurd (cc)
drop-head (suc pos) (x ∷ text) c s h = drop-head pos text c s h

module _ (libs : TextLibs) where
  run_length-le : (bound : ℕ) (s : Text) → run_length libs bound s ≤ bound
  unfolding run_length
  run_length-le zero s = omega arith
  run_length-le (suc bound) [] = omega arith
  run_length-le (suc bound) (c ∷ s) = ground (arith, run_length-le bound s)

  -- A run is in the text and holds characters of the class alone.
  take-run_length :
      (bound : ℕ) (s : Text)
      → (length (take (run_length libs bound s) s) ≡ run_length libs bound s)
        × (all (is_tag_char libs) (take (run_length libs bound s) s) ≡ true)
  unfolding run_length
  take-run_length zero s = (refl, refl)
  take-run_length (suc bound) [] = (refl, refl)
  take-run_length (suc bound) (c ∷ s) = elim (Bool-cases (is_tag_char libs c)) [
    | inl e ↦ let r = take-run_length bound s in rw e (ap suc r.0, rw e r.1)
    | inr e ↦ rw e (refl, refl)
  ]

  -- A hash, and behind it a tag of 1 to 30 letters, digits and underscores.
  pub record IsTag (text : Text) (m : Match) : Type 0 where
    pub hash : get_elem? text m.start ≡ some b'#'
    pub not_empty : 1 ≤ length (tag_of text m)
    pub not_long : length (tag_of text m) ≤ 30
    pub in_class : all (is_tag_char libs) (tag_of text m) ≡ true

  -- The match of a run that begins behind a hash.
  match-IsTag :
      (text : Text) (pos : ℕ) (s : Text)
      → drop pos text ≡ b'#' ∷ s
      → 1 ≤ run_length libs 30 s
      → IsTag text (record { start = pos; end_pos = suc pos + run_length libs 30 s })
  unfolding tag_of
  match-IsTag text pos s h one =
      let at = drop-head pos text b'#' s h in
      let n = run_length libs 30 s in
      let run = take-run_length 30 s in
      let width : suc pos + n - pos - 1 ≡ n = omega arith in
      let behind : pos + 1 ≡ suc pos = omega arith in
      let tag : take (suc pos + n - pos - 1) (drop (pos + 1) text) ≡ take n s =
        rw (width, behind, at.1) refl in
      record {
        hash = at.0;
        not_empty = rw (tag, run.0) one;
        not_long = rw (tag, run.0) (run_length-le 30 s);
        in_class = ap (all (is_tag_char libs)) tag ∙ run.1;
      }

  hash_run-IsTag :
      (text : Text) (pos c : ℕ) (s : Text) (b : Bool)
      → (c == b'#') ≡ b
      → drop pos text ≡ c ∷ s
      → leb 1 (if b then run_length libs 30 s else 0) ≡ true
      → IsTag text
          (record { start = pos; end_pos = suc pos + (if b then run_length libs 30 s else 0) })
  hash_run-IsTag text pos c s false e h one = absurd (ground arith)
  hash_run-IsTag text pos c s true e h one =
      let is_hash : c ≡ b'#' = ground arith in
      match-IsTag text pos s (h ∙ ap (λ c. c ∷ s) is_hash) (ground arith)

  All-if :
      (text : Text) (b : Bool) (m : Match) (ms : List Match)
      → (b ≡ true → IsTag text m)
      → All (IsTag text) ms
      → All (IsTag text) (if b then m ∷ ms else ms)
  All-if text true m ms h k = (h refl, k)
  All-if text false m ms h k = k

  matches_from-IsTag :
      (text : Text) (skip pos : ℕ) (s : Text)
      → drop pos text ≡ s
      → All (IsTag text) (matches_from libs skip pos s)
  unfolding matches_from
  matches_from-IsTag text skip pos [] h = tt
  matches_from-IsTag text (suc skip) pos (c ∷ s) h =
      matches_from-IsTag text skip (suc pos) s (drop-head pos text c s h).1
  matches_from-IsTag text zero pos (c ∷ s) h =
      All-if text _ _ _ (hash_run-IsTag text pos c s (c == b'#') refl h)
        (matches_from-IsTag text _ (suc pos) s (drop-head pos text c s h).1)

-- Every match is a hash with a tag of 1 to 30 letters, digits and underscores behind it.
pub find_iter-IsTag : (libs : TextLibs) (text : Text) → All (IsTag libs text) (find_iter libs text)
unfolding find_iter
find_iter-IsTag libs text = matches_from-IsTag libs text 0 0 text refl
