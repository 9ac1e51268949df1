-- ===== src/Gemini/Tests.antt =====
-- Runs of the model, and the theorems at concrete inputs. Keys are numbers here.
use mediahub_configs.Prelude.{ℕ, ◌≡◌, refl, none, some, List, [], ◌∷◌, arith}
use mediahub_configs.Prelude.Equality.{nat_eq}
use mediahub_configs.Gemini.Keys.{
  Rotation, missing, select_next_api_key, handle_rate_limited_key, rotated,
}
use mediahub_configs.Gemini.Keys.Turn.{IsFirstFree}
use mediahub_configs.Gemini.Keys.Pick.{select_next_api_key-IsFirstFree}

abbrev raw_keys : List ℕ
raw_keys = 7 ∷ 8 ∷ 7 ∷ 9 ∷ []

-- Key 8, which is next, rests until 150; the clock shows 100.
abbrev at_seven : Rotation ℕ
at_seven = record {
  api_keys = 7 ∷ 8 ∷ 9 ∷ [];
  current_api_index = some 0;
  current_api_key = some 7;
  cooldowns = (8, 150) ∷ [];
}

abbrev all_resting : Rotation ℕ
all_resting = record at_seven { cooldowns = (8, 150) ∷ (9, 160) ∷ (7, 101) ∷ [] }

abbrev hundred : ℕ → ℕ
hundred p = 100

skips_resting : (select_next_api_key hundred at_seven).current_api_key ≡ some 9
unfolding select_next_api_key
skips_resting = refl

none_free : (select_next_api_key hundred all_resting).current_api_key ≡ none
unfolding select_next_api_key
none_free = refl

select_next_api_key-IsFirstFree_example :
    (i : ℕ) × ((select_next_api_key hundred at_seven).current_api_index ≡ some i)
    × IsFirstFree hundred at_seven.api_keys at_seven.current_api_index at_seven.cooldowns 1 3 i 9
select_next_api_key-IsFirstFree_example =
    select_next_api_key-IsFirstFree hundred at_seven (λ a b h. omega arith) 9 skips_resting

abbrev after_limit : Rotation ℕ
after_limit = record {
  api_keys = 7 ∷ 8 ∷ 9 ∷ [];
  current_api_index = some 2;
  current_api_key = some 9;
  cooldowns = (8, 150) ∷ (7, 160) ∷ [];
}

rotates : handle_rate_limited_key 100 hundred missing at_seven ≡ rotated after_limit
unfolding handle_rate_limited_key
rotates = refl
