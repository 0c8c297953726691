-- ===== src/Trampoline.antt =====
-- src/utils/trampoline.cpp: a copy of the first instruction of each watched address, in slots of 32
-- bytes of a region of the process, each followed by a jump behind the original. Reading 32 bytes of
-- the process and decoding the length of an instruction are parameters, as is the allocation.
pub mod Slots
use chronoporia.Base.{
  ℕ, ◌+◌, ◌*◌, ◌%◌, ◌^◌, Option, none, some, List, [], ◌∷◌, ◌++◌, lookup, insert, get_or, length,
}
use chronoporia.Shellcode.{write_at, bytes_of}

pub record Trampolines : Type 0 where
  pub trampoline_region : List (List ℕ)
  pub address_to_trampoline_location : List (ℕ × ℕ)
  pub trampoline_address : ℕ
  pub trampoline_size : ℕ

-- What `VirtualAllocEx` returns is `allocated`.
unfoldable pub create_trampoline_region : ℕ → Trampolines → ℕ → Trampolines
create_trampoline_region allocated t region_size = record t {
  trampoline_address = allocated;
  trampoline_size = region_size;
}

-- `JMP [RIP+0]`, with the address to jump to behind it.
unfoldable pub jmp_buffer : ℕ → List ℕ
unfolding bytes_of
jmp_buffer return_address = 0xFF ∷ 0x25 ∷ 0 ∷ 0 ∷ 0 ∷ 0 ∷ bytes_of 8 return_address

abbrev pub slot_address : Trampolines → ℕ
slot_address t = (t.trampoline_address + length t.trampoline_region * 32) % 2 ^ 64

abbrev pub add_slot : Trampolines → ℕ → List ℕ → Trampolines
add_slot t address buffer = record t {
  trampoline_region = t.trampoline_region ++ buffer ∷ [];
  address_to_trampoline_location = insert address (slot_address t) t.address_to_trampoline_location;
}

-- Behind the decoder: `nullptr` where the bytes are no instruction.
unfoldable pub place : Trampolines → ℕ → List ℕ → Option ℕ → Trampolines × ℕ
unfolding jmp_buffer
place t address buffer none = (t, 0)
place t address buffer (some length_at) = (
  add_slot t address (write_at length_at (jmp_buffer ((address + length_at) % 2 ^ 64)) buffer),
  slot_address t,
)

unfoldable pub create_trampoline :
    (ℕ → List ℕ) → (List ℕ → Option ℕ) → Trampolines → ℕ → Trampolines × ℕ
create_trampoline read decode t address = place t address (read address) (decode (read address))

unfoldable pub slot_bytes : List (List ℕ) → List ℕ
slot_bytes [] = []
slot_bytes (buffer ∷ slots) = buffer ++ slot_bytes slots

-- The bytes that are written to the region, and where.
unfoldable pub finalize_trampoline_region : Trampolines → List ℕ × ℕ
unfolding slot_bytes
finalize_trampoline_region t = (slot_bytes t.trampoline_region, t.trampoline_address)

-- The map's `[]` makes an entry with 0 where there is none.
unfoldable pub get_trampoline_address : Trampolines → ℕ → Trampolines × ℕ
get_trampoline_address t address =
    let location = get_or address 0 t.address_to_trampoline_location in
    (
      record t {
        address_to_trampoline_location = insert address location t.address_to_trampoline_location;
      },
      location,
    )

-- The instruction pointer that the thread gets, if the address has a trampoline.
unfoldable pub redirect_to_trampoline : Trampolines → ℕ → Option ℕ
redirect_to_trampoline t address = lookup address t.address_to_trampoline_location
