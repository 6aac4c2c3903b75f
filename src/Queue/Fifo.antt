-- ===== src/Queue/Fifo.antt =====
-- The queue of list.c is first in, first out.
use ics7_os.Common.{
  ℕ, zero, suc, ◌+◌, ◌≤◌, ◌<◌, ◌≡◌, ◌≢◌, refl, ap, sym, ◌∙◌, ◌⊎◌, inl, inr, Bool, false, none, some,
  List, [], ◌∷◌, ◌++◌, append-nil, length, All, All-append_left, arith, ◌==◌, subst, ℕ_discrete,
  ==_self, ==_of_ne,
}
use ics7_os.Common.Options.{◌>>=◌}
use ics7_os.Memory.{Ptr, null, write}
use ics7_os.Queue.{
  Heap, Allocator, walk, add_end, create_list, pop, list_size, free_all, Queue,
  add_element_to_queue, size, get_adr, get_time_work_exit_element,
}
use ics7_os.Queue.Chain.{
  first, Apart, Disjoint, Apart-head, Linked, Linked-write, load-first, first_not_null,
  Linked-append,
}
use ics7_os.Queue.Create.{
  create_list-null, create_list-new, Linked-new, Extends, Extends-write, Extends-new, Extends-trans,
  Extends-refl,
}

pub record IsQueue (q : Queue) (ps : List Ptr) : Type 0 where
  pub starts : q.head ≡ first ps
  pub nodes : Linked q.heap ps

-- A queue whose `head` is known.
headed : (q : Queue) {p : Ptr} → q.head ≡ p → q ≡ record q { head = p }
headed q e = λ i. record q { head = e i }

module _ (a : Allocator) (k : ℕ) where
  add_empty :
      (h : Heap) (n : ℕ)
      → add_element_to_queue a k (record { heap = h; head = null; count = n })
        ≡ some (record {
          heap = (create_list a h null).0;
          head = (create_list a h null).1;
          count = n + 1;
        })
  unfolding add_element_to_queue
  add_empty h n = refl

  add_more :
      (h : Heap) (p cur : Ptr) (n : ℕ)
      → (p == null) ≡ false
      → walk k (create_list a h null).0 p ≡ some cur
      → add_element_to_queue a k (record { heap = h; head = p; count = n })
        ≡ some (record {
          heap = write (create_list a h null).0 cur (some (create_list a h null).1);
          head = p;
          count = n + 1;
        })
  unfolding add_element_to_queue add_end
  add_more h p cur n ne e = rw ne (rw (e, ◌>>=◌))

  -- The call succeeds, and the queue, which held `ps`, then holds `qs`.
  abbrev pub Adds : Queue → List Ptr → List Ptr → Type 0
  Adds q ps qs =
      (r : Queue) × (add_element_to_queue a k q ≡ some r)
      × IsQueue r qs
      × (r.count ≡ q.count + 1)
      × Extends q.heap ps r.heap qs

  add_new :
      (q : Queue) (ps : List Ptr)
      → IsQueue q ps
      → length ps ≤ k
      → a.malloc q.heap ≢ null
      → Adds q ps (ps ++ a.malloc q.heap ∷ [])
  add_new q [] is small ne =
      let (_l, new, _apart) = Linked-new a q.heap [] ne tt in
      (
        record {
          heap = (create_list a q.heap null).0;
          head = (create_list a q.heap null).1;
          count = q.count + 1;
        },
        ap (add_element_to_queue a k) (headed q is.starts) ∙ add_empty q.heap q.count,
        record {
          starts = ap (λ r. r.1) (create_list-new a q.heap null ne);
          nodes =
              subst (λ p. Linked (create_list a q.heap null).0 (p ∷ []))
                (ap (λ r. r.1) (create_list-new a q.heap null ne)) new;
        },
        refl,
        Extends-new a q.heap [] ne,
      )
  add_new q (p ∷ ps) is small ne =
      let r = create_list a q.heap null in
      let is_new : r.1 ≡ a.malloc q.heap = ap (λ r. r.1) (create_list-new a q.heap null ne) in
      let (l, new, apart) = Linked-new a q.heap (p ∷ ps) ne is.nodes in
      let (cur, l', found, off) =
        Linked-append r.0 p ps (r.1 ∷ []) l new
          (subst (λ t. Apart t (p ∷ ps)) (sym is_new) apart, tt) in
      (
        record { heap = write r.0 cur (some r.1); head = p; count = q.count + 1 },
        ap (add_element_to_queue a k) (headed q is.starts)
            ∙ add_more q.heap p cur q.count (==_of_ne p null is.nodes.0) (found k small),
        record {
          starts = refl;
          nodes = subst (λ t. Linked (write r.0 cur (some r.1)) (p ∷ (ps ++ t ∷ []))) is_new l';
        },
        refl,
        Extends-trans (Extends-new a q.heap (p ∷ ps) ne)
            (Extends-write r.0 (p ∷ (ps ++ a.malloc q.heap ∷ [])) cur (some r.1) (λ b apart.
              off b (All-append_left (λ t. t ≢ b) (p ∷ ps) (a.malloc q.heap ∷ []) apart)))
            (λ b apart. apart),
      )

  add_none :
      (q : Queue) (ps : List Ptr)
      → IsQueue q ps
      → length ps ≤ k
      → a.malloc q.heap ≡ null
      → Adds q ps ps
  add_none q [] is small e =
      let made = create_list-null a q.heap null e in
      (
        record q { head = null; count = q.count + 1 },
        ap (add_element_to_queue a k) (headed q is.starts)
            ∙ add_empty q.heap q.count
            ∙ ap (λ r. some (record { heap = r.0; head = r.1; count = q.count + 1 })) made,
        record { starts = refl; nodes = tt },
        refl,
        Extends-refl q.heap [],
      )
  add_none q (p ∷ ps) is small e =
      let made = create_list-null a q.heap null e in
      let (cur, l', found, off) = Linked-append q.heap p ps [] is.nodes tt tt in
      let same : p ∷ (ps ++ []) ≡ p ∷ ps = rw append-nil in
      (
        record { heap = write q.heap cur (some null); head = p; count = q.count + 1 },
        ap (add_element_to_queue a k) (headed q is.starts)
            ∙ add_more q.heap p cur q.count (==_of_ne p null is.nodes.0)
                (ap (λ r. walk k r.0 p) made ∙ found k small)
            ∙ ap
                (λ r.
                  some (record { heap = write r.0 cur (some r.1); head = p; count = q.count + 1 }))
                made,
        record { starts = refl; nodes = subst (Linked (write q.heap cur (some null))) same l' },
        refl,
        Extends-write q.heap (p ∷ ps) cur (some null) off,
      )

  -- With fuel for its length, `add_element_to_queue` ends. With memory it puts a new node behind
  -- the last one; without memory the list stays as it was. In both cases `count` grows by 1, and
  -- other blocks and lists stay as they were.
  pub add_element_to_queue_lem :
      (q : Queue) (ps : List Ptr)
      → IsQueue q ps
      → length ps ≤ k
      → ((a.malloc q.heap ≢ null) × Adds q ps (ps ++ a.malloc q.heap ∷ []))
        ⊎ ((a.malloc q.heap ≡ null) × Adds q ps ps)
  add_element_to_queue_lem q ps is small = elim (ℕ_discrete (a.malloc q.heap) null) [
    | yes e ↦ inr (e, add_none q ps is small e)
    | no ne ↦ inl (ne, add_new q ps is small ne)
  ]

-- With fuel for the length of the list, `list_size` ends and gives the number of its nodes.
pub list_size-length :
    (k : ℕ) (h : Heap) (ps : List Ptr)
    → Linked h ps
    → length ps < k
    → list_size k h (first ps) ≡ some (length ps)
unfolding list_size
list_size-length zero h ps l small = absurd (omega arith)
list_size-length (suc k) h [] l small = refl
list_size-length (suc k) h (p ∷ ps) l small =
    rw (first_not_null h p ps l, list_size)
      (rw (load-first h p ps l)
        (rw (◌>>=◌, list_size-length k h ps l.3 (omega arith)) (ap some (omega arith))))

-- With fuel for the length of the list, `free_all` ends without a fault; no node of the list is
-- allocated then, and every other block is as it was.
pub free_all_lem :
    (k : ℕ) (h : Heap) (ps : List Ptr)
    → Linked h ps
    → length ps < k
    → (h' : Heap) × (free_all k h (first ps) ≡ some h')
      × All (λ p. h'.at p ≡ none) ps
      × ((b : Ptr) → Apart b ps → h'.at b ≡ h.at b)
unfolding free_all
free_all_lem zero h ps l small = absurd (omega arith)
free_all_lem (suc k) h [] l small = (h, refl, tt, (λ b apart. refl))
free_all_lem (suc k) h (p ∷ ps) l small =
    let (h', q, gone, same) =
      free_all_lem k (write h p none) ps (Linked-write h p none ps l.2 l.3) (omega arith) in
    (
      h',
      rw (first_not_null h p ps l, free_all) (rw (load-first h p ps l) (rw (◌>>=◌, q))),
      (same p l.2 ∙ rw (==_self p), gone),
      (λ b apart. same b apart.1 ∙ rw (==_of_ne p b apart.0)),
    )

-- On a queue with elements, `get_time_work_exit_element` takes the first one off and frees it,
-- leaves the others in order, raises `n_quit` by 1, and keeps `adr_num` a valid index. Other blocks
-- stay as they were, and so do other lists.
pub get_time_work_exit_element_lem :
    (flag : Bool) (adr : ℕ → Ptr) (i : ℕ) (h : Heap) (p : Ptr) (ps : List Ptr) (n_quit : ℕ)
    → Linked h (p ∷ ps)
    → i < size
    → (adr' : ℕ → Ptr) × (i' : ℕ) × (h' : Heap) × (get_time_work_exit_element flag
          (adr, i)
          h
          p
          n_quit
        ≡ some (adr', i', h', first ps, n_quit + 1))
      × Linked h' ps
      × (h'.at p ≡ none)
      × ((b : Ptr) → p ≢ b → h'.at b ≡ h.at b)
      × ((qs : List Ptr) → Linked h qs → Disjoint (p ∷ ps) qs → Linked h' qs)
      × (i' < size)
unfolding get_time_work_exit_element pop get_adr
get_time_work_exit_element_lem flag adr i h p ps n_quit l small =
    let r = get_adr flag (adr, i) p in
    (
      r.0,
      r.1,
      write h p none,
      rw (first_not_null h p ps l) (rw l.1),
      Linked-write h p none ps l.2 l.3,
      rw (==_self p),
      (λ b ne. rw (==_of_ne p b ne)),
      (λ qs kept d. Linked-write h p none qs (Apart-head p ps qs d) kept),
      ground arith,
    )
