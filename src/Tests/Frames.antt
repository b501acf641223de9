-- ===== src/Tests/Frames.antt =====
-- comon/arch.cpp and comon/ext.cpp at concrete frames, buffers and numbers.
use comon.Base.{◌≡◌, refl, [], ◌∷◌, arith, nat_eq, member, codes, hex_text, ends_with}
use comon.Base.Result.{ok, err, e_fail}
use comon.Engine.{Engine}
use comon.CallContext.{read_method_frame, get_reg_values, get_stack_base}
use comon.CallContext.Types.{is_primitive_type, is_pointer_type}
use comon.CallContext.Frame.{read_method_frame_lem}
use comon.CallContext.Printing.{read_string, read_wstring}
use comon.CallContext.Printing.Strings.{read_string-stale}
use comon.Ext.Number.{evaluate_number}
use comon.Ext.Number.Printed.{evaluate_number-hex_text}
use comon.Tests.Debuggee.{small_engine}

-- an engine whose memory holds a short text
abbrev text_engine : Engine
text_engine = record small_engine { read_virtual = λ a n w. ok (97 ∷ 0 ∷ 0 ∷ 0 ∷ []) }

read_method_frame_lem_example :
    read_method_frame text_engine 4 (codes "long" ∷ codes "BSTR" ∷ []) 0 ≡ ok ((2 ∷ 3 ∷ []), 64)
unfolding get_reg_values get_stack_base ends_with is_primitive_type member is_pointer_type
read_method_frame_lem_example =
    read_method_frame_lem text_engine 0 4 (codes "long" ∷ codes "BSTR" ∷ [])
      (2 ∷ 3 ∷ 4 ∷ 5 ∷ 6 ∷ 7 ∷ 8 ∷ 9 ∷ []) (97 ∷ 0 ∷ 0 ∷ 0 ∷ []) 0 64 refl refl refl refl refl refl

read_string-stale_example :
    (read_string text_engine (λ t n. []) (λ g. []) (λ t. t) (120 ∷ 121 ∷ []) 8 4 0 ≡ ok (97 ∷ []))
    × (read_wstring text_engine (λ t n. []) (λ g. []) (λ t. t) (120 ∷ 121 ∷ []) 8 4 0
        ≡ ok (97 ∷ []))
unfolding member
read_string-stale_example =
    read_string-stale text_engine (λ t n. []) (λ g. []) (λ t. t) (120 ∷ 121 ∷ [])
      (97 ∷ 0 ∷ 0 ∷ 0 ∷ []) (97 ∷ 0 ∷ 0 ∷ 0 ∷ []) 8 8 4 0 refl (omega arith) refl refl (omega arith)
      refl

evaluate_number-hex_text_example : evaluate_number (err e_fail) (hex_text 0x1f00) ≡ ok 0x1f00
evaluate_number-hex_text_example = evaluate_number-hex_text (err e_fail) 0x1f00 (omega arith)
