-- ===== src/Shellcode.antt =====
-- src/utils/shellcode.cpp: the machine code that makes the process unload modules. Bytes are numbers
-- below 256. Allocation in the process is a parameter; the C++ routine `_start` is not modelled.
pub mod Layout
use chronoporia.Base.{ℕ, zero, suc, ◌+◌, ◌*◌, ◌%◌, ◌/◌, ◌-◌, List, [], ◌∷◌, ◌++◌, length, set}

-- `memcpy` into a buffer; what does not fit is not written.
unfoldable pub write_at : ℕ → List ℕ → List ℕ → List ℕ
write_at zero [] xs = xs
write_at zero (b ∷ bytes) [] = []
write_at zero (b ∷ bytes) (x ∷ xs) = b ∷ write_at zero bytes xs
write_at (suc i) bytes [] = []
write_at (suc i) bytes (x ∷ xs) = x ∷ write_at i bytes xs

-- The low bytes of a number, least first.
unfoldable pub bytes_of : ℕ → ℕ → List ℕ
bytes_of zero v = []
bytes_of (suc n) v = v % 256 ∷ bytes_of n (v / 256)

unfoldable pub zeros : ℕ → List ℕ
zeros zero = []
zeros (suc n) = 0 ∷ zeros n

abbrev pub sub_rsp : List ℕ
sub_rsp = 0x48 ∷ 0x83 ∷ 0xEC ∷ 0x28 ∷ []

abbrev pub add_rsp : List ℕ
add_rsp = 0x48 ∷ 0x83 ∷ 0xC4 ∷ 0x28 ∷ []

-- `base_dll_unload_code`, with the address of `LdrUnloadDll` written at 12.
unfoldable pub base_dll_unload_code : ℕ → List ℕ
unfolding write_at bytes_of zeros
base_dll_unload_code unload = write_at 12 (bytes_of 8 unload) (
    0x48 ∷ 0xB9 ∷ 0 ∷ 0 ∷ 0 ∷ 0 ∷ 0 ∷ 0 ∷ 0 ∷ 0 ∷ 0x48 ∷ 0xB8 ∷ 0 ∷ 0 ∷ 0 ∷ 0 ∷ 0 ∷ 0 ∷ 0 ∷ 0 ∷ 0xFF
    ∷ 0xD0 ∷ [])

-- The loop over the modules, by their handles.
unfoldable pub write_dlls : ℕ → List ℕ → List ℕ → ℕ → List ℕ
write_dlls unload code [] dll_count = code
write_dlls unload code (handle ∷ dlls) dll_count =
    let copied = write_at (dll_count * 22 + 4) (base_dll_unload_code unload) code in
    write_dlls unload (write_at (dll_count * 22 + 2 + 4) (bytes_of 8 handle) copied) dlls
      (dll_count + 1)

-- `code_line` when it is complete.
unfoldable pub code_line : ℕ → List ℕ → List ℕ
code_line unload dlls_to_unload =
    let code = write_at 0 sub_rsp (zeros (length dlls_to_unload * 22 + 8 + 1)) in
    let called = write_dlls unload code dlls_to_unload 0 in
    let finished = write_at (length dlls_to_unload * 22 + 4) add_rsp called in
    set finished (length finished - 1) 0xCC

-- The code is appended to `shellcode_buffer`; its own size is returned.
unfoldable pub add_dll_unload : ℕ → List ℕ → List ℕ → List ℕ × ℕ
add_dll_unload unload shellcode_buffer dlls_to_unload =
    let code = code_line unload dlls_to_unload in (shellcode_buffer ++ code, length code)

-- The buffer is written to the process, and left empty.
unfoldable pub write_shell_code_buffer_to_process :
    {Process : Type 0}
    → (Process → ℕ → Process × ℕ)
    → (Process → ℕ → List ℕ → Process)
    → Process
    → List ℕ
    → Process × List ℕ × ℕ
write_shell_code_buffer_to_process alloc write process shellcode_buffer =
    let (allocated, address) = alloc process (length shellcode_buffer) in
    (write allocated address shellcode_buffer, [], address)
