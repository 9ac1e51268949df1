-- ===== src/Session/Tests.antt =====
-- Runs of scripts/session-activity.py, and the theorems on it at concrete inputs.
use mediahub_configs.Prelude.{ℕ, ◌≡◌, refl, Option, none, some, List, [], ◌∷◌, ◌++◌, if◌then◌else◌}
use mediahub_configs.Prelude.Equality.{◌=?◌, list_eq, nat_eq}
use mediahub_configs.Session.Varint.{varint, varint_of}
use mediahub_configs.Session.Socket.{recv, read_varint, read_data, data_of}
use mediahub_configs.Session.Java.{
  ℤ, pos, unreadable, online, java_players, status_reply, request, java_players-status_reply,
  java_players-reply_of, reply_of, java_reply,
}
use mediahub_configs.Session.Bedrock.{bedrock_players}
use mediahub_configs.Session.Sunshine.{idle, streaming, sunshine, open_tag, close_tag, server_busy}
use mediahub_configs.Session.Check.{check, minecraft_unknown, java}

varint_300 : varint 300 ≡ 172 ∷ 2 ∷ []
unfolding varint
varint_300 = refl

request_25500 :
    request 25500
    ≡ 16 ∷ 0 ∷ 255 ∷ 5 ∷ 9 ∷ 49 ∷ 50 ∷ 55 ∷ 46 ∷ 48 ∷ 46 ∷ 48 ∷ 46 ∷ 49 ∷ 99 ∷ 156 ∷ 1 ∷ 1 ∷ 0 ∷ []
unfolding request
request_25500 = refl

-- The JSON of the tests is one byte, the number of players.
abbrev first_byte : List ℕ → Option ℤ
first_byte [] = none
first_byte (b ∷ bs) = some (pos b)

abbrev json : List ℕ
json = 7 ∷ []

abbrev in_two_parts : List (List ℕ)
in_two_parts = (3 ∷ 0 ∷ []) ∷ [] ∷ (1 ∷ 7 ∷ 9 ∷ []) ∷ []

two_parts_are_a_reply : 3 ∷ 0 ∷ 1 ∷ 7 ∷ 9 ∷ [] ≡ status_reply json ++ 9 ∷ []
unfolding status_reply varint
two_parts_are_a_reply = refl

java_players-status_reply_example : java_players first_byte (some in_two_parts) ≡ online (pos 7)
java_players-status_reply_example =
    java_players-status_reply first_byte json (9 ∷ []) in_two_parts two_parts_are_a_reply

java_players-reply_of_example : java_players first_byte (some in_two_parts) ≡ online (pos 7)
unfolding reply_of varint_of data_of
java_players-reply_of_example = java_players-reply_of first_byte in_two_parts

closed_early : java_players first_byte (some ((3 ∷ []) ∷ (0 ∷ 1 ∷ []) ∷ [])) ≡ unreadable
unfolding java_players java_reply read_varint recv read_data
closed_early = refl

check_unreadable :
    check idle ((25500, unreadable) ∷ []) ((25501, online (pos 0)) ∷ [])
    ≡ (2, minecraft_unknown java 25500 ∷ [])
unfolding check
check_unreadable = refl

-- The third ping is answered, "MCPE;;;;3".
bedrock_third :
    bedrock_players
      (λ text. text)
      (λ field. first_byte field)
      (λ i.
        if (i ∷ []) =? (2 ∷ [])
        then some (
            28 ∷ 0 ∷ 0 ∷ 0 ∷ 0 ∷ 0 ∷ 0 ∷ 0 ∷ 0 ∷ 0 ∷ 0 ∷ 0 ∷ 0 ∷ 0 ∷ 0 ∷ 0 ∷ 0 ∷ 0 ∷ 0 ∷ 0 ∷ 0 ∷ 0
            ∷ 0 ∷ 0 ∷ 0 ∷ 0 ∷ 0 ∷ 0 ∷ 0 ∷ 0 ∷ 0 ∷ 0 ∷ 0 ∷ 0 ∷ 0 ∷ 77 ∷ 59 ∷ 59 ∷ 59 ∷ 59 ∷ 51 ∷ [])
        else none)
    ≡ online (pos 51)
unfolding bedrock_players
bedrock_third = refl

abbrev busy_body : List ℕ
busy_body = 60 ∷ 97 ∷ 62 ∷ open_tag ++ (server_busy ++ close_tag)

sunshine_busy : sunshine (some busy_body) ≡ streaming
unfolding sunshine
sunshine_busy = refl
