-- ===== src/Queue/Create.antt =====
-- A new node, and what it leaves alone.
use ics7_os.Common.{
  ◌≡◌, ◌≢◌, refl, sym, ◌∙◌, Option, some, List, [], ◌∷◌, ◌++◌, All-append_right, All-mono, ==_self,
  ==_of_ne,
}
use ics7_os.Memory.{Ptr, null, write}
use ics7_os.Queue.{Heap, Allocator, create_list}
use ics7_os.Queue.Chain.{Apart, Disjoint, Disjoint-snoc, Linked, Linked-write, Apart-unused}

pub create_list-null :
    (a : Allocator) (h : Heap) (head : Ptr) → a.malloc h ≡ null → create_list a h head ≡ (h, head)
unfolding create_list
create_list-null a h head e = rw e

pub create_list-new :
    (a : Allocator) (h : Heap) (head : Ptr)
    → a.malloc h ≢ null
    → create_list a h head
      ≡ (write (write h (a.malloc h) (some (a.contents h))) (a.malloc h) (some null), a.malloc h)
unfolding create_list
create_list-new a h head ne = rw (==_of_ne (a.malloc h) null ne)

-- The heap with the new node.
pub Linked-new :
    (a : Allocator) (h : Heap) (ps : List Ptr)
    → a.malloc h ≢ null
    → Linked h ps
    → (Linked (create_list a h null).0 ps)
      × Linked (create_list a h null).0 ((create_list a h null).1 ∷ [])
      × Apart (a.malloc h) ps
Linked-new a h ps ne l =
    let p = a.malloc h in
    let apart = Apart-unused h p ps (a.unused h ne) l in
    rw (create_list-new a h null ne) (
      Linked-write (write h p (some (a.contents h))) p (some null) ps apart
          (Linked-write h p (some (a.contents h)) ps apart l),
      (ne, rw (==_self p), tt, tt),
      apart,
    )

new_same :
    (a : Allocator) (h : Heap) (b : Ptr)
    → a.malloc h ≢ null
    → a.malloc h ≢ b
    → (create_list a h null).0.at b ≡ h.at b
new_same a h b ne off = rw (create_list-new a h null ne) (rw (==_of_ne (a.malloc h) b off))

-- What the call leaves alone: the lists apart from that of the queue, and the blocks outside it.
pub record Extends (h : Heap) (ps : List Ptr) (h' : Heap) (ps' : List Ptr) : Type 0 where
  pub others : (qs : List Ptr) → Linked h qs → Disjoint ps qs → Linked h' qs × Disjoint ps' qs
  pub same : (b : Ptr) → Apart b ps' → h'.at b ≡ h.at b

-- After a write to a node of the list.
pub Extends-write :
    (h : Heap) (ps : List Ptr) (cur : Ptr) (c : Option Ptr)
    → ((b : Ptr) → Apart b ps → cur ≢ b)
    → Extends h ps (write h cur c) ps
Extends-write h ps cur c off = record {
  others = λ qs l d. (
    Linked-write h cur c qs
        (All-mono (λ t. Apart t ps) (λ t. t ≢ cur) qs (λ t apart e. off t apart (sym e)) d) l,
    d,
  );
  same = λ b apart. rw (==_of_ne cur b (off b apart));
}

pub Extends-new :
    (a : Allocator) (h : Heap) (ps : List Ptr)
    → a.malloc h ≢ null
    → Extends h ps (create_list a h null).0 (ps ++ a.malloc h ∷ [])
Extends-new a h ps ne = record {
  others = λ qs l d.
      let (kept, _new, apart) = Linked-new a h qs ne l in
      (kept, Disjoint-snoc ps qs (a.malloc h) d apart);
  same = λ b apart. new_same a h b ne (All-append_right (λ p. p ≢ b) ps (a.malloc h ∷ []) apart).0;
}

pub Extends-trans :
    {h h' h'' : Heap} {ps ps' ps'' : List Ptr}
    → Extends h ps h' ps'
    → Extends h' ps' h'' ps''
    → ((b : Ptr) → Apart b ps'' → Apart b ps')
    → Extends h ps h'' ps''
Extends-trans e e' smaller = record {
  others = λ qs l d. let (l', d') = e.others qs l d in e'.others qs l' d';
  same = λ b apart. e'.same b apart ∙ e.same b (smaller b apart);
}

pub Extends-refl : (h : Heap) (ps : List Ptr) → Extends h ps h ps
Extends-refl h ps = record { others = λ qs l d. (l, d); same = λ b apart. refl }
