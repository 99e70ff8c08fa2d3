-- ===== src/Cpu/Valid/Addresses.antt =====
-- Every addressing mode keeps the invariant.
use ce.Base.{Bool}
use ce.Cpu.Valid.{Keeps}
use ce.Cpu.Valid.Parts.{access_rules, part_rules}
use ce.Cpu.Address.{
  get_absolute_indexed_indirect_x, get_absolute_indirect, get_absolute_indirect_long, get_absolute,
  get_absolute_indexed_x, get_absolute_indexed_y, get_long_indexed_x, get_direct_page,
  get_direct_page_indirect, get_direct_page_indirect_long, get_direct_page_indexed_x,
  get_direct_page_indexed_indirect_x, get_direct_page_indexed_y, get_direct_page_indirect_indexed_y,
  get_direct_page_indirect_long_indexed_y, get_relative8, get_relative16, get_long, get_immediate,
  get_stack_relative, get_stack_relative_indirect_indexed_y,
}
use ce.Cpu.Instr.{Operand}
use ce.Cpu.Execute.{address}

get_absolute_indexed_indirect_x-Keeps : (acc : Bool) → Keeps (get_absolute_indexed_indirect_x acc)
unfolding get_absolute_indexed_indirect_x
get_absolute_indexed_indirect_x-Keeps acc = search access_rules depth 12

get_absolute_indirect-Keeps : (acc : Bool) → Keeps (get_absolute_indirect acc)
unfolding get_absolute_indirect
get_absolute_indirect-Keeps acc = search access_rules depth 12

get_absolute_indirect_long-Keeps : (acc : Bool) → Keeps (get_absolute_indirect_long acc)
unfolding get_absolute_indirect_long
get_absolute_indirect_long-Keeps acc = search access_rules depth 12

get_absolute-Keeps : (acc : Bool) → Keeps (get_absolute acc)
unfolding get_absolute
get_absolute-Keeps acc = search access_rules depth 12

get_absolute_indexed_x-Keeps : (acc : Bool) → Keeps (get_absolute_indexed_x acc)
unfolding get_absolute_indexed_x
get_absolute_indexed_x-Keeps acc = search access_rules depth 12

get_absolute_indexed_y-Keeps : (acc : Bool) → Keeps (get_absolute_indexed_y acc)
unfolding get_absolute_indexed_y
get_absolute_indexed_y-Keeps acc = search access_rules depth 12

get_long_indexed_x-Keeps : (acc : Bool) → Keeps (get_long_indexed_x acc)
unfolding get_long_indexed_x
get_long_indexed_x-Keeps acc = search access_rules depth 12

get_direct_page-Keeps : (acc : Bool) → Keeps (get_direct_page acc)
unfolding get_direct_page
get_direct_page-Keeps acc = search access_rules depth 12

get_direct_page_indirect-Keeps : (acc : Bool) → Keeps (get_direct_page_indirect acc)
unfolding get_direct_page_indirect
get_direct_page_indirect-Keeps acc = search access_rules depth 12

get_direct_page_indirect_long-Keeps : (acc : Bool) → Keeps (get_direct_page_indirect_long acc)
unfolding get_direct_page_indirect_long
get_direct_page_indirect_long-Keeps acc = search access_rules depth 12

get_direct_page_indexed_x-Keeps : (acc : Bool) → Keeps (get_direct_page_indexed_x acc)
unfolding get_direct_page_indexed_x
get_direct_page_indexed_x-Keeps acc = search access_rules depth 12

get_direct_page_indexed_indirect_x-Keeps :
    (acc : Bool) → Keeps (get_direct_page_indexed_indirect_x acc)
unfolding get_direct_page_indexed_indirect_x
get_direct_page_indexed_indirect_x-Keeps acc = search access_rules depth 12

get_direct_page_indexed_y-Keeps : (acc : Bool) → Keeps (get_direct_page_indexed_y acc)
unfolding get_direct_page_indexed_y
get_direct_page_indexed_y-Keeps acc = search access_rules depth 12

get_direct_page_indirect_indexed_y-Keeps :
    (acc : Bool) → Keeps (get_direct_page_indirect_indexed_y acc)
unfolding get_direct_page_indirect_indexed_y
get_direct_page_indirect_indexed_y-Keeps acc = search access_rules depth 12

get_direct_page_indirect_long_indexed_y-Keeps :
    (acc : Bool) → Keeps (get_direct_page_indirect_long_indexed_y acc)
unfolding get_direct_page_indirect_long_indexed_y
get_direct_page_indirect_long_indexed_y-Keeps acc = search access_rules depth 12

pub get_relative8-Keeps : (acc : Bool) → Keeps (get_relative8 acc)
unfolding get_relative8
get_relative8-Keeps acc = search access_rules depth 12

pub get_relative16-Keeps : (acc : Bool) → Keeps (get_relative16 acc)
unfolding get_relative16
get_relative16-Keeps acc = search access_rules depth 12

get_long-Keeps : (acc : Bool) → Keeps (get_long acc)
unfolding get_long
get_long-Keeps acc = search access_rules depth 12

pub get_immediate-Keeps : (acc : Bool) → Keeps (get_immediate acc)
unfolding get_immediate
get_immediate-Keeps acc = search access_rules depth 12

get_stack_relative-Keeps : (acc : Bool) → Keeps (get_stack_relative acc)
unfolding get_stack_relative
get_stack_relative-Keeps acc = search access_rules depth 12

get_stack_relative_indirect_indexed_y-Keeps :
    (acc : Bool) → Keeps (get_stack_relative_indirect_indexed_y acc)
unfolding get_stack_relative_indirect_indexed_y
get_stack_relative_indirect_indexed_y-Keeps acc = search access_rules depth 12

pub address-Keeps : (operand : Operand) (acc : Bool) → Keeps (address operand acc)
unfolding address
address-Keeps Operand.absolute_indexed_indirect_x acc = get_absolute_indexed_indirect_x-Keeps acc
address-Keeps Operand.absolute_indirect acc = get_absolute_indirect-Keeps acc
address-Keeps Operand.absolute_indirect_long acc = get_absolute_indirect_long-Keeps acc
address-Keeps Operand.absolute acc = get_absolute-Keeps acc
address-Keeps Operand.absolute_indexed_x acc = get_absolute_indexed_x-Keeps acc
address-Keeps Operand.absolute_indexed_y acc = get_absolute_indexed_y-Keeps acc
address-Keeps Operand.long_indexed_x acc = get_long_indexed_x-Keeps acc
address-Keeps Operand.direct_page acc = get_direct_page-Keeps acc
address-Keeps Operand.direct_page_indirect acc = get_direct_page_indirect-Keeps acc
address-Keeps Operand.direct_page_indirect_long acc = get_direct_page_indirect_long-Keeps acc
address-Keeps Operand.direct_page_indexed_x acc = get_direct_page_indexed_x-Keeps acc
address-Keeps Operand.direct_page_indexed_indirect_x acc =
    get_direct_page_indexed_indirect_x-Keeps acc
address-Keeps Operand.direct_page_indexed_y acc = get_direct_page_indexed_y-Keeps acc
address-Keeps Operand.direct_page_indirect_indexed_y acc =
    get_direct_page_indirect_indexed_y-Keeps acc
address-Keeps Operand.direct_page_indirect_long_indexed_y acc =
    get_direct_page_indirect_long_indexed_y-Keeps acc
address-Keeps Operand.long acc = get_long-Keeps acc
address-Keeps Operand.immediate acc = get_immediate-Keeps acc
address-Keeps Operand.stack_relative acc = get_stack_relative-Keeps acc
address-Keeps Operand.stack_relative_indirect_indexed_y acc =
    get_stack_relative_indirect_indexed_y-Keeps acc
address-Keeps Operand.no_address acc = record { keeps = λ s v. v }

pub ruleset address_rules =
    (part_rules, get_relative8-Keeps, get_relative16-Keeps, get_immediate-Keeps)
