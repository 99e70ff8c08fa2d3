-- ===== src/Cpu/Text.antt =====
-- src/cpu/65816.c: tostrCPU and fromstrCPU, the state of the processor as text.
pub mod Format
pub mod Scan
pub mod Decimal
pub mod RoundTrip
pub mod Size
use Prim.Native.String.{String}
use ce.Base.{ℕ, zero, suc, bit, of_bool, ◌==◌, Bool, if◌then◌else◌, List, [], ◌∷◌, length}
use ce.Cpu.State.{Cpu, ErrorCode}
use ce.Cpu.Text.Format.{Directive, chars, sprintf, sscanf}
use Directive.{word, byte, int, long}

-- The directives of a format: its conversions, each with what stands in front of it, and its end.
abbrev pub format : List (String × Directive) → String → List Directive
format [] end = chars end []
format ((before, conv) ∷ f) end = chars before (conv ∷ format f end)

abbrev pub to_format : List Directive
to_format =
    format
      (("{C:", word)
        ∷ (",X:", word)
        ∷ (",Y:", word)
        ∷ (",SP:", word)
        ∷ (",D:", word)
        ∷ (",DBR:", byte)
        ∷ (",PBR:", byte)
        ∷ (",PC:", word)
        ∷ (",RST:", int)
        ∷ (",IRQ:", int)
        ∷ (",NMI:", int)
        ∷ (",STP:", int)
        ∷ (",CRASH:", int)
        ∷ (",PSC:", int)
        ∷ (",PSZ:", int)
        ∷ (",PSI:", int)
        ∷ (",PSD:", int)
        ∷ (",PSXB:", int)
        ∷ (",PSM:", int)
        ∷ (",PSV:", int)
        ∷ (",PSN:", int)
        ∷ (",PSE:", int)
        ∷ (",cycles:", long)
        ∷ [])
      "}"

abbrev pub from_format : List Directive
from_format =
    format
      (("{ C : ", word)
        ∷ (" , X : ", word)
        ∷ (" , Y : ", word)
        ∷ (" , SP : ", word)
        ∷ (" , D : ", word)
        ∷ (" , DBR : ", byte)
        ∷ (" , PBR : ", byte)
        ∷ (" , PC : ", word)
        ∷ (" , RST : ", int)
        ∷ (" , IRQ : ", int)
        ∷ (" , NMI : ", int)
        ∷ (" , STP : ", int)
        ∷ (" , CRASH : ", int)
        ∷ (" , PSC : ", int)
        ∷ (" , PSZ : ", int)
        ∷ (" , PSI : ", int)
        ∷ (" , PSD : ", int)
        ∷ (" , PSXB : ", int)
        ∷ (" , PSM : ", int)
        ∷ (" , PSV : ", int)
        ∷ (" , PSN : ", int)
        ∷ (" , PSE : ", int)
        ∷ (" , cycles : ", long)
        ∷ [])
      " }"

-- The arguments of sprintf.
abbrev pub fields : Cpu → List ℕ
fields r =
    r.c
    ∷ r.x
    ∷ r.y
    ∷ r.sp
    ∷ r.d
    ∷ r.dbr
    ∷ r.pbr
    ∷ r.pc
    ∷ of_bool r.p_rst
    ∷ of_bool r.p_irq
    ∷ of_bool r.p_nmi
    ∷ of_bool r.p_stp
    ∷ of_bool r.p_crash
    ∷ of_bool r.p_c
    ∷ of_bool r.p_z
    ∷ of_bool r.p_i
    ∷ of_bool r.p_d
    ∷ of_bool r.p_xb
    ∷ of_bool r.p_m
    ∷ of_bool r.p_v
    ∷ of_bool r.p_n
    ∷ of_bool r.p_e
    ∷ r.cycles
    ∷ []

unfoldable pub tostr_cpu : Cpu → List ℕ
tostr_cpu r = sprintf to_format (fields r)

-- The value at a place, if it was stored; else what was there.
abbrev pub value : List ℕ → ℕ → ℕ → ℕ
value [] i old = old
value (v ∷ vs) zero old = v
value (v ∷ vs) (suc i) old = value vs i old

-- The lowest bit, to which a bit field of one bit cuts an int.
abbrev pub scanned_flag : List ℕ → ℕ → (ℕ → ℕ) → Bool
scanned_flag vs i locals = bit (value vs i (locals i)) 0

-- The processor after `vs` has been stored in the fields and in the local variables of the flags.
unfoldable pub scanned : List ℕ → (ℕ → ℕ) → Cpu → Cpu
scanned vs locals r = record r {
  c = value vs 0 r.c;
  x = value vs 1 r.x;
  y = value vs 2 r.y;
  sp = value vs 3 r.sp;
  d = value vs 4 r.d;
  dbr = value vs 5 r.dbr;
  pbr = value vs 6 r.pbr;
  pc = value vs 7 r.pc;
  p_rst = scanned_flag vs 8 locals;
  p_irq = scanned_flag vs 9 locals;
  p_nmi = scanned_flag vs 10 locals;
  p_stp = scanned_flag vs 11 locals;
  p_crash = scanned_flag vs 12 locals;
  p_c = scanned_flag vs 13 locals;
  p_z = scanned_flag vs 14 locals;
  p_i = scanned_flag vs 15 locals;
  p_d = scanned_flag vs 16 locals;
  p_xb = scanned_flag vs 17 locals;
  p_m = scanned_flag vs 18 locals;
  p_v = scanned_flag vs 19 locals;
  p_n = scanned_flag vs 20 locals;
  p_e = scanned_flag vs 21 locals;
  cycles = value vs 22 r.cycles;
}

-- `locals` is what the variables of the flags hold before they are set.
unfoldable pub fromstr_cpu : (ℕ → ℕ) → List ℕ → Cpu → ErrorCode × Cpu
unfolding scanned
fromstr_cpu locals buf r =
    let vs = sscanf from_format buf in
    (if length vs == 23 then ErrorCode.ok else ErrorCode.str_parse, scanned vs locals r)
