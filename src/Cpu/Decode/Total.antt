-- ===== src/Cpu/Decode/Total.antt =====
-- The switch of stepCPU has a case for every opcode (src/cpu/65816.c).
use ce.Base.{ℕ, zero, suc, ◌^◌, ◌<◌, ◌≡◌, refl, some, List, [], ◌∷◌, ◌++◌, get_elem?, length, arith}
use ce.Cpu.Instr.{Instr}
use ce.Cpu.Decode.{decode}
use ce.Cpu.Decode.Low.{decode_00}
use ce.Cpu.Decode.MidLow.{decode_40}
use ce.Cpu.Decode.MidHigh.{decode_80}
use ce.Cpu.Decode.High.{decode_c0}

get_elem?-lt {ℓ} :
    {A : Type ℓ} (xs : List A) (n : ℕ) → n < length xs → (x : A) × (get_elem? xs n ≡ some x)
get_elem?-lt [] n h = absurd (omega arith)
get_elem?-lt (x ∷ xs) zero h = (x, refl)
get_elem?-lt (x ∷ xs) (suc n) h = get_elem?-lt xs n (omega arith)

-- Every byte decodes to an instruction.
pub decode-total : (opcode : ℕ) → opcode < 2 ^ 8 → (i : Instr) × (decode opcode ≡ some i)
unfolding decode
decode-total opcode h = get_elem?-lt (decode_00 ++ decode_40 ++ decode_80 ++ decode_c0) opcode h
