-- ===== src/Cli/Chars.antt =====
-- The `str` methods that crates/cli uses, over the characters of a text.
use choam.Base.{
  ℕ, zero, suc, Bool, false, ◌&&◌, List, [], ◌∷◌, ◌++◌, Bytes, length, take, drop, replicate,
  is_empty, if◌then◌else◌, ◌-◌,
}
use choam.Sql.Lexer.{CharClass, char_len, code_point}

-- The characters of a text, each as its bytes; every character has at least one.
unfoldable pub chars_from : ℕ → Bytes → List Bytes
unfolding char_len
chars_from zero bs = []
chars_from (suc fuel) [] = []
chars_from (suc fuel) (b ∷ bs) =
    take (char_len b) (b ∷ bs) ∷ chars_from fuel (drop (char_len b) (b ∷ bs))

unfoldable pub chars : Bytes → List Bytes
unfolding chars_from
chars bs = chars_from (length bs) bs

unfoldable pub concat : List Bytes → Bytes
concat [] = []
concat (c ∷ cs) = c ++ concat cs

-- `s.chars().count()`
unfoldable pub char_count : Bytes → ℕ
unfolding chars
char_count bs = length (chars bs)

-- `format!("{c:<w$}")`
unfoldable pub pad : ℕ → Bytes → Bytes
unfolding char_count
pad w c = c ++ replicate (w - char_count c) 32

module _ (classes : CharClass) where
  unfoldable pub is_space : Bytes → Bool
  unfolding code_point
  is_space [] = false
  is_space (b ∷ bs) = classes.is_whitespace (code_point b bs)

  unfoldable pub drop_spaces : List Bytes → List Bytes
  unfolding is_space
  drop_spaces [] = []
  drop_spaces (c ∷ cs) = let after = drop_spaces cs in if is_space c then after else c ∷ cs

  unfoldable pub drop_last_spaces : List Bytes → List Bytes
  unfolding is_space
  drop_last_spaces [] = []
  drop_last_spaces (c ∷ cs) =
      let kept = drop_last_spaces cs in if is_empty kept && is_space c then [] else c ∷ kept

  unfoldable pub trim_start : Bytes → Bytes
  unfolding drop_spaces chars concat
  trim_start bs = concat (drop_spaces (chars bs))

  unfoldable pub trim_end : Bytes → Bytes
  unfolding drop_last_spaces chars concat
  trim_end bs = concat (drop_last_spaces (chars bs))

  unfoldable pub trim : Bytes → Bytes
  unfolding trim_start trim_end
  trim bs = trim_end (trim_start bs)

  -- `s.split_whitespace()`: `word` is the one being read.
  unfoldable pub words_from : Bytes → List Bytes → List Bytes
  unfolding is_space
  words_from word [] = if is_empty word then [] else word ∷ []
  words_from word (c ∷ cs) =
      let ended = (if is_empty word then words_from [] cs else word ∷ words_from [] cs) in
      let longer = words_from (word ++ c) cs in if is_space c then ended else longer

  unfoldable pub split_whitespace : Bytes → List Bytes
  unfolding words_from chars
  split_whitespace bs = words_from [] (chars bs)
