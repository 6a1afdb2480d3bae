-- ===== src/Tests/Fins.antt =====
-- The theorems on driver/fins/src at concrete data.
use opcua_plc_bridge.Base.{
  length, ℕ, ◌+◌, ◌*◌, ◌^◌, ◌≡◌, List, [], ◌∷◌, none, some, drop, arith, ok,
}
use opcua_plc_bridge.Driver.Words.{read_words}
use opcua_plc_bridge.Core.TagValue.{TagValue, data_type}
use opcua_plc_bridge.Core.WordOrder.{WordOrder, apply_to_bytes}
use opcua_plc_bridge.Driver.Words.{registers_to_bytes, ordered_words}
use opcua_plc_bridge.Fins.Codec.{tagvalue_to_words_standard, decode_value}
use opcua_plc_bridge.Fins.Codec.Agree.{words_then_decode}
use opcua_plc_bridge.Tests.Data.{chrono}
use opcua_plc_bridge.Fins.Frame.{build_fins_frame, build_memory_write, byte_at, parse_fins_response}
use opcua_plc_bridge.Fins.Frame.Layout.{
  response, parse_fins_response-build_fins_frame, build_memory_write_layout,
}
use opcua_plc_bridge.Fins.Split.{Request, split}
use opcua_plc_bridge.Fins.Split.Tiles.{Tiles, split-Tiles, split_zero_limit}

-- A response to a memory read of session 7: no error, and one word.
parse_fins_response-build_fins_frame_example :
    parse_fins_response (build_fins_frame 7 (1, 1) (0 ∷ 0 ∷ 18 ∷ 52 ∷ []))
    ≡ response 7 (0 ∷ 0 ∷ 18 ∷ 52 ∷ [])
parse_fins_response-build_fins_frame_example =
    parse_fins_response-build_fins_frame 7 (1, 1) (0 ∷ 0 ∷ 18 ∷ 52 ∷ [])

abbrev two_words : List ℕ
two_words = 4660 ∷ 1 ∷ []

build_memory_write_layout_example :
    (byte_at 0 (build_memory_write 0x82 70000 0 two_words) ≡ 0x82)
    × (byte_at 1 (build_memory_write 0x82 70000 0 two_words) * 2 ^ 16
          + byte_at 2 (build_memory_write 0x82 70000 0 two_words) * 2 ^ 8
          + byte_at 3 (build_memory_write 0x82 70000 0 two_words)
        ≡ 70000)
    × (byte_at 4 (build_memory_write 0x82 70000 0 two_words) ≡ 0)
    × (byte_at 5 (build_memory_write 0x82 70000 0 two_words) * 2 ^ 8
          + byte_at 6 (build_memory_write 0x82 70000 0 two_words)
        ≡ 2)
    × (read_words (drop 7 (build_memory_write 0x82 70000 0 two_words)) ≡ two_words)
    × (length (build_memory_write 0x82 70000 0 two_words) ≡ 11)
build_memory_write_layout_example =
    build_memory_write_layout 0x82 70000 0 two_words (omega arith) (omega arith)
      (omega arith, (omega arith, tt))

split-Tiles_example :
    (rs : List Request) × (split 2000 960 100 2000 ≡ some rs) × Tiles 960 100 2100 rs
split-Tiles_example =
    split-Tiles 2000 960 100 2000 (omega arith) (omega arith) (omega arith) (omega arith)

split_zero_limit_example : split 50 0 100 2000 ≡ none
split_zero_limit_example = split_zero_limit 50 100 2000 (omega arith)

abbrev half : TagValue ℕ
half = TagValue.float 0x3f000000

words_then_decode_example :
    (ws : List ℕ) × (tagvalue_to_words_standard chrono half ≡ ok ws)
    × (decode_value chrono some
          (data_type half)
          (apply_to_bytes WordOrder.dcba (registers_to_bytes (ordered_words WordOrder.dcba ws)))
          0
        ≡ ok half)
words_then_decode_example = words_then_decode chrono some half WordOrder.dcba (omega arith)
