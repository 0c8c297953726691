-- ===== src/Trampoline/Slots.antt =====
-- What the code at a trampoline's address is.
use chronoporia.Base.{
  ℕ, ◌+◌, ◌*◌, ◌%◌, ◌^◌, ◌≡◌, refl, sym, ap, subst, ◌∙◌, Option, some, List, [], ◌∷◌, ◌++◌, arith,
  if◌then◌else◌, lookup, lookup-insert, length, length-append, append_assoc, append-nil, All,
  All-append, ==-refl,
}
use chronoporia.Shellcode.{write_at, bytes_of}
use chronoporia.Shellcode.Layout.{write_at-append}
use chronoporia.Trampoline.{
  Trampolines, jmp_buffer, slot_address, add_slot, place, create_trampoline, slot_bytes,
  finalize_trampoline_region, redirect_to_trampoline,
}

-- Every slot has 32 bytes.
abbrev pub IsSlotted : Trampolines → Type 0
IsSlotted t = All (λ buffer. length buffer ≡ 32) t.trampoline_region

write_at-zero :
    (bytes old rest : List ℕ)
    → length old ≡ length bytes
    → write_at 0 bytes (old ++ rest) ≡ bytes ++ rest
unfolding write_at
write_at-zero [] [] rest e = refl
write_at-zero [] (x ∷ old) rest e = ground arith
write_at-zero (b ∷ bytes) [] rest e = ground arith
write_at-zero (b ∷ bytes) (x ∷ old) rest e =
    ap (λ r. b ∷ r) (write_at-zero bytes old rest (omega (arith, e)))

slot_bytes-append :
    (slots : List (List ℕ)) (buffer : List ℕ)
    → slot_bytes (slots ++ buffer ∷ []) ≡ slot_bytes slots ++ buffer
unfolding slot_bytes
slot_bytes-append [] buffer = append-nil buffer
slot_bytes-append (s ∷ slots) buffer =
    ap (λ r. s ++ r) (slot_bytes-append slots buffer)
    ∙ sym (append_assoc s (slot_bytes slots) buffer)

length-slot_bytes :
    (slots : List (List ℕ))
    → All (λ buffer. length buffer ≡ 32) slots
    → length (slot_bytes slots) ≡ length slots * 32
unfolding slot_bytes
length-slot_bytes [] h = refl
length-slot_bytes (s ∷ slots) h =
    omega (arith, h.0, length-append s (slot_bytes slots), length-slot_bytes slots h.1)

-- The instruction and the jump behind it, with what is left of the 32 bytes.
abbrev pub trampoline_code : ℕ → List ℕ → List ℕ → List ℕ
trampoline_code address instruction rest =
    instruction ++ (jmp_buffer ((address + length instruction) % 2 ^ 64) ++ rest)

module _ (read : ℕ → List ℕ) (decode : List ℕ → Option ℕ) (t : Trampolines) (address : ℕ)
    (instruction old rest : List ℕ) (bytes : read address ≡ instruction ++ (old ++ rest))
    (replaced : length old ≡ 14) (whole : length (read address) ≡ 32)
    (decoded : decode (read address) ≡ some (length instruction)) (slotted : IsSlotted t) where
  length-jmp_buffer : (a : ℕ) → length (jmp_buffer a) ≡ 14
  unfolding jmp_buffer bytes_of
  length-jmp_buffer a = refl

  abbrev code : List ℕ
  code = trampoline_code address instruction rest

  written :
      write_at
        (length instruction)
        (jmp_buffer ((address + length instruction) % 2 ^ 64))
        (read address)
      ≡ code
  written =
      let jump = jmp_buffer ((address + length instruction) % 2 ^ 64) in
      ap (write_at (length instruction) jump) bytes
      ∙ write_at-append (length instruction) 0 jump instruction (old ++ rest) (omega arith)
      ∙ ap (λ r. instruction ++ r)
          (write_at-zero jump old rest
            (replaced ∙ sym (length-jmp_buffer ((address + length instruction) % 2 ^ 64))))

  length-code : length code ≡ 32
  length-code =
      let jump = jmp_buffer ((address + length instruction) % 2 ^ 64) in
      omega (
        arith,
        replaced,
        whole,
        ap length bytes,
        length-jmp_buffer ((address + length instruction) % 2 ^ 64),
        length-append instruction (jump ++ rest),
        length-append jump rest,
        length-append instruction (old ++ rest),
        length-append old rest,
      )

  create-add_slot :
      create_trampoline read decode t address ≡ (add_slot t address code, slot_address t)
  unfolding create_trampoline place
  create-add_slot =
      ap (place t address (read address)) decoded
      ∙ ap (λ buffer. (add_slot t address buffer, slot_address t)) written

  -- Where the 32 bytes at an address are an instruction of the decoded length, 14 bytes and the
  -- rest, and all slots are full, a trampoline for the address is a slot behind the others: a thread
  -- at the address is sent to the end of the code so far, and the code there is the instruction and
  -- a jump to the address behind the original. All slots are full again.
  pub create_trampoline-code :
      (redirect_to_trampoline (create_trampoline read decode t address).0 address
        ≡ some (create_trampoline read decode t address).1)
      × ((create_trampoline read decode t address).1
          ≡ (t.trampoline_address + length (finalize_trampoline_region t).0) % 2 ^ 64)
      × ((finalize_trampoline_region (create_trampoline read decode t address).0).0
          ≡ (finalize_trampoline_region t).0 ++ trampoline_code address instruction rest)
      × IsSlotted (create_trampoline read decode t address).0
  unfolding redirect_to_trampoline finalize_trampoline_region
  create_trampoline-code = (
    ap (λ o. redirect_to_trampoline o.0 address) create-add_slot
        ∙ lookup-insert address address (slot_address t) t.address_to_trampoline_location
        ∙ ap
            (λ b.
              if b then some (slot_address t) else lookup address t.address_to_trampoline_location)
            (==-refl address)
        ∙ sym (ap (λ o. some o.1) create-add_slot),
    ap (λ o. o.1) create-add_slot
        ∙ ap (λ n. (t.trampoline_address + n) % 2 ^ 64)
            (sym (length-slot_bytes t.trampoline_region slotted)),
    ap (λ o. (finalize_trampoline_region o.0).0) create-add_slot
        ∙ slot_bytes-append t.trampoline_region code,
    subst (λ o. IsSlotted o.0) (sym create-add_slot)
        (All-append (λ buffer. length buffer ≡ 32) t.trampoline_region (code ∷ []) slotted
          (length-code, tt)),
  )
