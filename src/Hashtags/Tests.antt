-- ===== src/Hashtags/Tests.antt =====
-- The extractor at a concrete text.
use k_indexer.Prelude.{◌≡◌, refl, some, [], ◌∷◌, All, leb, ◌&&◌}
use k_indexer.Text.{Text, codes, text_eq, contains}
use k_indexer.Store.Rows.{any, IsUnique}
use k_indexer.Hashtags.{
  TextLibs, is_tag_char, run_length, matches_from, find_iter, is_whitespace, valid_before,
  valid_after, tag_of, insert, collect, extract_hashtags,
}
use k_indexer.Hashtags.Sound.{yields, extract_hashtags_exact, IsTag, find_iter-IsTag}

abbrev sample : Text
sample = codes "#ab, x#cd"

-- The letters a to z, and the digits.
abbrev sample_libs : TextLibs
sample_libs = record {
  base64_decode = λ s. some s;
  is_letter = λ c. leb b'a' c && leb c b'z';
  is_number = λ c. leb b'0' c && leb c b'9';
  to_lowercase = λ s. s;
}

-- Two matches, of which the second has no white space before it.
find_sample :
    find_iter sample_libs sample
    ≡ record { start = 0; end_pos = 3 } ∷ record { start = 6; end_pos = 9 } ∷ []
unfolding find_iter matches_from run_length is_tag_char
find_sample = refl

-- A run of 31 letters is cut.
find_long :
    find_iter sample_libs (codes "#abcdefghijklmnopqrstuvwxyzabcde")
    ≡ record { start = 0; end_pos = 31 } ∷ []
unfolding find_iter matches_from run_length is_tag_char
find_long = refl

-- The second tag has no white space before it.
extract_sample : extract_hashtags sample_libs sample ≡ codes "ab" ∷ []
unfolding extract_hashtags collect find_iter matches_from run_length is_tag_char valid_before
    valid_after tag_of insert is_whitespace contains text_eq
extract_sample = refl

extract_hashtags_exact_example :
    ((t : Text)
      → any (text_eq t) (extract_hashtags sample_libs sample)
        ≡ any (yields sample_libs sample t) (find_iter sample_libs sample))
    × IsUnique text_eq (extract_hashtags sample_libs sample)
extract_hashtags_exact_example = extract_hashtags_exact sample_libs sample

find_iter-IsTag_example : All (IsTag sample_libs sample) (find_iter sample_libs sample)
find_iter-IsTag_example = find_iter-IsTag sample_libs sample
