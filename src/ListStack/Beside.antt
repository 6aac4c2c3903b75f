-- ===== src/ListStack/Beside.antt =====
-- The operations of list_operations.c on a stack beside a list of other nodes, which they keep.
use ics7_os.Common.{
  ◌<◌, ◌≡◌, ◌≢◌, sym, subst, some, [], ◌∷◌, ℤ, length, IsChar, ==_of_ne, ◌==◌, false, leb,
  Bool-cases, inl, inr,
}
use ics7_os.ArrayStack.{ok, err_length, max_size}
use ics7_os.Memory.{Ptr, null, write}
use ics7_os.ListStack.{Heap, Allocator, Stack, push_list, pop_list}
use ics7_os.ListStack.Chain.{Cells, Chain, Beside, Chain-write, Apart-unused}
use ics7_os.ListStack.Ops.{empty_IsStack, push_list-cons, push_list_refused, pop_list-cons}

pub empty_Beside :
    (h : Heap) (ws : Cells) → Chain h ws → Beside ws (record { heap = h; s = null; n = 0 }) []
empty_Beside h ws kept = record { stack = empty_IsStack h; kept = kept; apart = tt }

push_keeps :
    (a : Allocator) (st : Stack) (x : ℤ) (ws : Cells)
    → a.malloc st.heap ≢ null
    → Chain st.heap ws
    → Chain (push_list a st x).1.heap ws
unfolding push_list
push_keeps a st x ws ne ch =
    let p = a.malloc st.heap in
    let got : (p == null) ≡ false = ==_of_ne p null ne in
    let out = Apart-unused st.heap p ws (a.unused st.heap ne) ch in
    let asked = Chain-write st.heap p (some (a.contents st.heap)) ws out ch in
    elim (Bool-cases (leb max_size st.n)) [
      | inl full ↦ rw (got, full) asked
      | inr fits ↦
          rw (got, fits)
            (Chain-write (write st.heap p (some (a.contents st.heap))) p _ ws out asked)
    ]

module _ {ws : Cells} where
  pub push_list-cons-Beside :
      (a : Allocator) (st : Stack) (xs : Cells) (x : ℤ)
      → Beside ws st xs
      → length xs < max_size
      → a.malloc st.heap ≢ null
      → IsChar x
      → (st' : Stack) × (push_list a st x ≡ (ok, st')) × Beside ws st' ((a.malloc st.heap, x) ∷ xs)
  push_list-cons-Beside a st xs x b h ne c =
      let (st', q, is) = push_list-cons a st xs x b.stack h ne c in
      let out = Apart-unused st.heap (a.malloc st.heap) ws (a.unused st.heap ne) b.kept in
      (
        st',
        q,
        record {
          stack = is;
          kept = subst (λ r. Chain r.1.heap ws) q (push_keeps a st x ws ne b.kept);
          apart = (out, b.apart);
        },
      )

  pub push_list_refused-Beside :
      (a : Allocator) (st : Stack) (xs : Cells) (x : ℤ)
      → Beside ws st xs
      → length xs ≡ max_size
      → a.malloc st.heap ≢ null
      → (st' : Stack) × (push_list a st x ≡ (err_length, st')) × Beside ws st' xs
  push_list_refused-Beside a st xs x b h ne =
      let (st', q, is, _at) = push_list_refused a st xs x b.stack h ne in
      (
        st',
        q,
        record {
          stack = is;
          kept = subst (λ r. Chain r.1.heap ws) q (push_keeps a st x ws ne b.kept);
          apart = b.apart;
        },
      )

  pub pop_list-cons-Beside :
      (st : Stack) (p : Ptr) (v : ℤ) (xs : Cells)
      → Beside ws st ((p, v) ∷ xs)
      → (st' : Stack) × (pop_list st ≡ some (v, st')) × Beside ws st' xs
  pop_list-cons-Beside st p v xs b =
      let (st', q, is, heap) = pop_list-cons st p v xs b.stack in
      (
        st',
        q,
        record {
          stack = is;
          kept = subst (λ h. Chain h ws) (sym heap) (Chain-write st.heap p _ ws b.apart.0 b.kept);
          apart = b.apart.1;
        },
      )
