-- ===== src/Shellcode/Layout.antt =====
-- The layout of the unload code, and where its breakpoint is.
use chronoporia.Base.{
  ℕ, zero, suc, ◌+◌, ◌*◌, ◌-◌, ◌≡◌, refl, sym, ap, ◌∙◌, some, List, [], ◌∷◌, ◌++◌, arith, length,
  get_elem?, append_assoc, length-append, set,
}
use chronoporia.Shellcode.{
  write_at, bytes_of, zeros, sub_rsp, add_rsp, base_dll_unload_code, write_dlls, code_line,
  add_dll_unload,
}

-- One call: load the handle, load the address of `LdrUnloadDll`, call it.
abbrev pub unload_call : ℕ → ℕ → List ℕ
unload_call unload handle =
    (0x48 ∷ 0xB9 ∷ [])
    ++ (bytes_of 8 handle ++ (0x48 ∷ 0xB8 ∷ bytes_of 8 unload ++ (0xFF ∷ 0xD0 ∷ [])))

unfoldable pub unload_calls : ℕ → List ℕ → List ℕ
unfolding bytes_of
unload_calls unload [] = []
unload_calls unload (handle ∷ dlls) = unload_call unload handle ++ unload_calls unload dlls

pub write_at-append :
    (i j : ℕ) (bytes pre rest : List ℕ)
    → i ≡ length pre + j
    → write_at i bytes (pre ++ rest) ≡ pre ++ write_at j bytes rest
unfolding write_at
write_at-append i j bytes [] rest e = ap (λ k. write_at k bytes rest) (omega (arith, e))
write_at-append zero j bytes (x ∷ pre) rest e = ground arith
write_at-append (suc i) j bytes (x ∷ pre) rest e =
    ap (λ r. x ∷ r) (write_at-append i j bytes pre rest (omega arith))

zeros-add : (m n : ℕ) → zeros (m + n) ≡ zeros m ++ zeros n
unfolding zeros
zeros-add zero n = ap zeros (omega arith)
zeros-add (suc m) n = ap zeros one_more ∙ ap (λ r. 0 ∷ r) (zeros-add m n)
  where
    one_more : suc m + n ≡ suc (m + n)
    one_more = omega arith

write_call :
    (unload handle : ℕ) (rest : List ℕ)
    → write_at 2 (bytes_of 8 handle) (write_at 0 (base_dll_unload_code unload) (zeros 22 ++ rest))
      ≡ unload_call unload handle ++ rest
unfolding write_at bytes_of zeros base_dll_unload_code
write_call unload handle rest = refl

write_dll :
    (unload handle count : ℕ) (pre rest : List ℕ)
    → length pre ≡ count * 22 + 4
    → write_at
        (count * 22 + 2 + 4)
        (bytes_of 8 handle)
        (write_at (count * 22 + 4) (base_dll_unload_code unload) (pre ++ (zeros 22 ++ rest)))
      ≡ pre ++ (unload_call unload handle ++ rest)
write_dll unload handle count pre rest e =
    ap (write_at (count * 22 + 2 + 4) (bytes_of 8 handle)) (
      write_at-append (count * 22 + 4) 0 (base_dll_unload_code unload) pre (zeros 22 ++ rest)
        (omega (arith, e)))
    ∙ write_at-append (count * 22 + 2 + 4) 2 (bytes_of 8 handle) pre
        (write_at 0 (base_dll_unload_code unload) (zeros 22 ++ rest)) (omega (arith, e))
    ∙ ap (λ r. pre ++ r) (write_call unload handle rest)

zeros_call :
    (dlls tail : List ℕ) (h : ℕ)
    → zeros (length (h ∷ dlls) * 22) ++ tail ≡ zeros 22 ++ (zeros (length dlls * 22) ++ tail)
zeros_call dlls tail h =
    ap (λ n. zeros n ++ tail) (omega arith)
    ∙ ap (λ z. z ++ tail) (zeros-add 22 (length dlls * 22))
    ∙ append_assoc (zeros 22) (zeros (length dlls * 22)) tail

length-call :
    (unload handle count : ℕ) (pre : List ℕ)
    → length pre ≡ count * 22 + 4
    → length (pre ++ unload_call unload handle) ≡ (count + 1) * 22 + 4
unfolding bytes_of
length-call unload handle count pre e =
    omega (arith, e, length-append pre (unload_call unload handle))

write_dlls-append :
    (unload : ℕ) (dlls : List ℕ) (count : ℕ) (pre tail : List ℕ)
    → length pre ≡ count * 22 + 4
    → write_dlls unload (pre ++ (zeros (length dlls * 22) ++ tail)) dlls count
      ≡ pre ++ (unload_calls unload dlls ++ tail)
unfolding write_dlls unload_calls zeros
write_dlls-append unload [] count pre tail e = ap (λ n. pre ++ (zeros n ++ tail)) no_bytes
  where
    no_bytes : 0 * 22 ≡ 0
    no_bytes = refl
write_dlls-append unload (h ∷ dlls) count pre tail e =
    let rest = zeros (length dlls * 22) ++ tail in
    let call = unload_call unload h in
    ap
      (λ z.
        write_dlls unload
          (write_at (count * 22 + 2 + 4) (bytes_of 8 h)
            (write_at (count * 22 + 4) (base_dll_unload_code unload) (pre ++ z)))
          dlls (count + 1))
      (zeros_call dlls tail h)
    ∙ ap (λ code. write_dlls unload code dlls (count + 1))
        (write_dll unload h count pre rest e ∙ sym (append_assoc pre call rest))
    ∙ write_dlls-append unload dlls (count + 1) (pre ++ call) tail
        (length-call unload h count pre e)
    ∙ append_assoc pre call (unload_calls unload dlls ++ tail)
    ∙ ap (λ r. pre ++ r) (sym (append_assoc call (unload_calls unload dlls) tail))

length-unload_calls :
    (unload : ℕ) (dlls : List ℕ) → length (unload_calls unload dlls) ≡ length dlls * 22
unfolding unload_calls bytes_of
length-unload_calls unload [] = refl
length-unload_calls unload (h ∷ dlls) = omega (
  arith,
  length-unload_calls unload dlls,
  length-append (unload_call unload h) (unload_calls unload dlls),
)

set-append : (pre : List ℕ) (i x v : ℕ) → i ≡ length pre → set (pre ++ x ∷ []) i v ≡ pre ++ v ∷ []
set-append [] zero x v e = refl
set-append [] (suc i) x v e = ground arith
set-append (y ∷ pre) zero x v e = ground arith
set-append (y ∷ pre) (suc i) x v e = ap (λ r. y ∷ r) (set-append pre i x v (omega arith))

-- The finished code: the stack is made ready, one call for each module, the stack is restored, and
-- the breakpoint instruction comes last.
abbrev pub layout : ℕ → List ℕ → List ℕ
layout unload dlls = (sub_rsp ++ unload_calls unload dlls ++ add_rsp) ++ 0xCC ∷ []

start_code :
    (n : ℕ) → write_at 0 sub_rsp (zeros (n * 22 + 8 + 1)) ≡ sub_rsp ++ (zeros (n * 22) ++ zeros 5)
unfolding write_at zeros
start_code n =
    ap (λ k. write_at 0 sub_rsp (zeros k)) parts ∙ ap (λ r. sub_rsp ++ r) (zeros-add (n * 22) 5)
  where
    parts : n * 22 + 8 + 1 ≡ suc (suc (suc (suc (n * 22 + 5))))
    parts = omega arith

end_code :
    (i : ℕ) (pre : List ℕ)
    → i ≡ length pre
    → write_at i add_rsp (pre ++ zeros 5) ≡ (pre ++ add_rsp) ++ 0 ∷ []
unfolding write_at zeros
end_code i pre e =
    write_at-append i 0 add_rsp pre (zeros 5) (omega (arith, e))
    ∙ sym (append_assoc pre add_rsp (0 ∷ []))

-- For any modules, the writes into the zeroed buffer give the layout: the stack made ready, one call
-- for each module in order, the stack restored, and the breakpoint instruction last. The code has 22
-- bytes for each module and 9 more.
pub code_line-layout :
    (unload : ℕ) (dlls : List ℕ)
    → (code_line unload dlls ≡ layout unload dlls)
      × (length (code_line unload dlls) ≡ length dlls * 22 + 9)
unfolding code_line
code_line-layout unload dlls = (laid_out, ap length laid_out ∙ measured)
  where
    calls : List ℕ
    calls = sub_rsp ++ unload_calls unload dlls

    body : List ℕ
    body = calls ++ add_rsp

    length-body : length body ≡ length dlls * 22 + 8
    length-body = omega (
      arith,
      length-append calls add_rsp,
      length-append sub_rsp (unload_calls unload dlls),
      length-unload_calls unload dlls,
    )

    measured : length (body ++ 0xCC ∷ []) ≡ length dlls * 22 + 9
    measured = omega (arith, length-append body (0xCC ∷ []), length-body)

    written :
        write_at
          (length dlls * 22 + 4)
          add_rsp
          (write_dlls unload (write_at 0 sub_rsp (zeros (length dlls * 22 + 8 + 1))) dlls 0)
        ≡ body ++ 0 ∷ []
    written =
        ap (λ c. write_at (length dlls * 22 + 4) add_rsp (write_dlls unload c dlls 0))
          (start_code (length dlls))
        ∙ ap (write_at (length dlls * 22 + 4) add_rsp) (
            write_dlls-append unload dlls 0 sub_rsp (zeros 5) (omega arith)
            ∙ sym (append_assoc sub_rsp (unload_calls unload dlls) (zeros 5)))
        ∙ end_code (length dlls * 22 + 4) calls (
            omega (
              arith,
              length-append sub_rsp (unload_calls unload dlls),
              length-unload_calls unload dlls,
            ))

    laid_out : code_line unload dlls ≡ layout unload dlls
    laid_out =
        ap (λ c. set c (length c - 1) 0xCC) written
        ∙ set-append body (length (body ++ 0 ∷ []) - 1) 0 0xCC
            (omega (arith, length-append body (0 ∷ [])))

get_elem?-append : (pre : List ℕ) (i x : ℕ) → i ≡ length pre → get_elem? (pre ++ x ∷ []) i ≡ some x
get_elem?-append [] zero x e = refl
get_elem?-append [] (suc i) x e = ground arith
get_elem?-append (y ∷ pre) zero x e = ground arith
get_elem?-append (y ∷ pre) (suc i) x e = get_elem?-append pre i x (omega arith)

-- With an empty buffer, the byte at the returned size less one, where the restore phase expects its
-- breakpoint, is the breakpoint instruction.
pub add_dll_unload-breakpoint :
    (unload : ℕ) (dlls : List ℕ)
    → get_elem? (add_dll_unload unload [] dlls).0 ((add_dll_unload unload [] dlls).1 - 1)
      ≡ some 0xCC
unfolding add_dll_unload
add_dll_unload-breakpoint unload dlls =
    let (laid_out, measured) = code_line-layout unload dlls in
    let body = sub_rsp ++ unload_calls unload dlls ++ add_rsp in
    ap (λ c. get_elem? c (length (code_line unload dlls) - 1)) laid_out
    ∙ get_elem?-append body (length (code_line unload dlls) - 1) 0xCC
        (omega (arith, ap length laid_out, length-append body (0xCC ∷ [])))
