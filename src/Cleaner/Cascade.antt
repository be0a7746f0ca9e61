-- ===== src/Cleaner/Cascade.antt =====
-- The foreign key of `k_hashtags`: deleting contents leaves no hashtag without its content.
use k_indexer.Prelude.{◌≡◌, refl, Bool, true, false, not, List, [], ◌∷◌, arith, All}
use k_indexer.Store.{ContentRow, HashtagRow, Db}
use k_indexer.Store.Rows.{any, where_rows, delete_rows, All-where_rows}
use k_indexer.Store.Invariant.{IsHashtag, is_content_of, is_tagged_in}
use k_indexer.Cleaner.{tags_content, delete_contents}
use k_indexer.Cleaner.Laws.{All-both, delete_rows-IsFalse}

any-split :
    {A : Type 0} (q p : A → Bool) (xs : List A)
    → any q xs ≡ true
    → any q (where_rows p xs) ≡ false
    → any q (delete_rows p xs) ≡ true
unfolding where_rows delete_rows
any-split q p [] h k = h
any-split q p (x ∷ xs) h k = ground (arith, any-split q p xs)

any-is_tagged_in :
    (h : HashtagRow) (cs : List ContentRow)
    → any (is_content_of h) cs ≡ false
    → any (is_tagged_in h) cs ≡ false
any-is_tagged_in h [] n = refl
any-is_tagged_in h (c ∷ cs) n = ground (arith, any-is_tagged_in h cs)

-- Every hashtag that is left names a content that is left.
pub delete_contents-IsHashtag :
    (p : ContentRow → Bool) (db : Db)
    → All (IsHashtag db.k_contents) db.k_hashtags
    → All (IsHashtag (delete_contents p db).k_contents) (delete_contents p db).k_hashtags
unfolding delete_contents tags_content IsHashtag delete_rows
delete_contents-IsHashtag p db h =
    let gone : HashtagRow → Bool = tags_content (where_rows p db.k_contents) in
    All-both (delete_rows gone db.k_hashtags)
      (λ t i k. (
        any-split (is_tagged_in t) p db.k_contents i.0
            (any-is_tagged_in t (where_rows p db.k_contents) k),
        i.1,
      ))
      (All-where_rows (IsHashtag db.k_contents) (λ t. not (gone t)) db.k_hashtags h)
      (delete_rows-IsFalse gone db.k_hashtags)
