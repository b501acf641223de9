-- ===== src/Logger.antt =====
-- comon/comon.h, `dbgeng_logger`: the lines that are logged, and the texts of errors with the map that
-- keeps them. `FormatMessage` is a parameter: the characters that it writes, none where it fails.
pub mod Messages
use comon.Base.{
  ℕ, ◌-◌, Bool, true, false, ◌&&◌, Option, none, some, List, [], ◌∷◌, ◌++◌, nat_beq, nat_eq, leb,
  length, take, nth, find, insert, Text, codes, hex_text,
}

-- `error_msg[i]`; 0 stands for none
abbrev pub unit_at : Text → ℕ → ℕ
unit_at t i = elim (nth t i) [ none ↦ 0 | some c ↦ c ]

-- `\r\n` at the end is cut off
unfoldable pub skip_new_line : Text → Text
skip_new_line error_msg =
    let cnt = length error_msg in
    elim (leb 2 cnt
      && (nat_beq (unit_at error_msg (cnt - 2)) 13 && nat_beq (unit_at error_msg (cnt - 1)) 10)) [
        | true ↦ take (cnt - 2) error_msg
        | false ↦ error_msg
      ]

-- a call of `OutputWide` or of `ControlledOutputWide` with `DEBUG_OUTCTL_AMBIENT_DML`: the mask and the
-- text
pub data Output : Type 0 where
  output_wide controlled_output_wide : ℕ → Text → Output

-- `DEBUG_OUTPUT_NORMAL`, `DEBUG_OUTPUT_ERROR`, `DEBUG_OUTPUT_WARNING`
abbrev pub output_normal : ℕ
output_normal = 1

abbrev pub output_error : ℕ
output_error = 2

abbrev pub output_warning : ℕ
output_warning = 4

abbrev pub line : Text → Text
line message = codes "[comon] " ++ message ++ codes "\n"

unfoldable pub log_info : Text → Output
log_info message = output_wide output_normal (line message)

unfoldable pub log_info_dml : Text → Output
log_info_dml message = controlled_output_wide output_normal (line message)

unfoldable pub log_warning : Text → Output
log_warning message = output_wide output_warning (line message)

module _ (format_message : ℕ → Text) where
  -- the text of an error, and the map `error_messages` behind the call
  unfoldable pub get_error_msg : ℕ → List (ℕ × Text) → Text × List (ℕ × Text)
  get_error_msg hr error_messages = elim (find hr error_messages) [
    | some message ↦ (message, error_messages)
    | none ↦ elim (format_message hr) [
      | [] ↦ ([], error_messages)
      | c ∷ rest ↦
          let message = skip_new_line (c ∷ rest) in (message, insert hr message error_messages)
    ]
  ]

  unfoldable pub log_error_dml : Text → ℕ → List (ℕ × Text) → Output × List (ℕ × Text)
  log_error_dml message hr error_messages =
      let (error_msg, error_messages') = get_error_msg hr error_messages in
      (
        controlled_output_wide output_error (
            line (
              message
              ++ codes ", <col fg=\"srcstr\">error: "
              ++ hex_text hr
              ++ codes " - "
              ++ error_msg
              ++ codes "</col>")),
        error_messages',
      )

  unfoldable pub log_error : Text → ℕ → List (ℕ × Text) → Output × List (ℕ × Text)
  log_error message hr error_messages = log_error_dml message hr error_messages
