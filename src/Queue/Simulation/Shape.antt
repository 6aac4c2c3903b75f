-- ===== src/Queue/Simulation/Shape.antt =====
-- The two queues of `start_list_time` in one heap, when a request comes and when one leaves.
use ics7_os.Common.{
  ℕ, ◌+◌, ◌≤◌, ◌<◌, ◌≡◌, ◌≢◌, refl, subst, ℕ_discrete, ◌∙◌, inl, inr, Bool, false, none, some, List,
  [], ◌∷◌, ◌++◌, length, length-append, All-append_left, arith, ◌==◌,
}
use ics7_os.Memory.{Ptr, null}
use ics7_os.Queue.{Heap, Allocator, Queue, size}
use ics7_os.Queue.Chain.{first, Apart, Disjoint, Disjoint-sym, Apart-rest, Linked}
use ics7_os.Queue.Create.{Extends}
use ics7_os.Queue.Fifo.{IsQueue, add_element_to_queue_lem, get_time_work_exit_element_lem}
use ics7_os.Queue.Simulation.{Line, Lines, enter, leave}

-- Two lists without a common node, and no other block in use.
pub record Shape (h : Heap) (ps qs : List Ptr) : Type 0 where
  pub nodes : Linked h ps
  pub nodes_2 : Linked h qs
  pub disjoint : Disjoint ps qs
  pub rest : (b : Ptr) → Apart b ps → Apart b qs → h.at b ≡ none

pub Shape-swap : {h : Heap} {ps qs : List Ptr} → Shape h ps qs → Shape h qs ps
Shape-swap {h} {ps} {qs} s = record {
  nodes = s.nodes_2;
  nodes_2 = s.nodes;
  disjoint = Disjoint-sym ps qs s.disjoint;
  rest = λ b b_qs b_ps. s.rest b b_ps b_qs;
}

module _ (a : Allocator) where
  -- There is always memory.
  abbrev pub Plenty : Type 0
  Plenty = (h : Heap) → a.malloc h ≢ null

  -- The queue has the nodes `ps`, each for one that came, of `b` at most, and has not left.
  pub record Holds (l : Line) (ps : List Ptr) (b : ℕ) : Type 0 where
    pub starts : l.head ≡ first ps
    pub counted : l.n_quit + length ps ≤ l.count
    pub exact : Plenty → l.n_quit + length ps ≡ l.count
    pub bounded : l.count ≤ b

  Holds-later : {l : Line} {ps : List Ptr} {b c : ℕ} → b ≤ c → Holds l ps b → Holds l ps c
  Holds-later le o = record {
    starts = o.starts;
    counted = o.counted;
    exact = o.exact;
    bounded = omega (arith, o.bounded);
  }

  -- With fuel, an element enters.
  pub enters :
      (k b : ℕ) (h : Heap) (l : Line) (ps qs : List Ptr)
      → b ≤ k
      → Shape h ps qs
      → Holds l ps b
      → (h' : Heap) × (l' : Line) × (ps' : List Ptr) × (enter a k h l ≡ some (h', l'))
        × Shape h' ps' qs
        × Holds l' ps' (b + 1)
        × (l'.n_quit ≡ l.n_quit)
  unfolding enter
  enters k b h l ps qs room s o =
      let q : Queue = record { heap = h; head = l.head; count = l.count } in
      elim (add_element_to_queue_lem a k q ps (record { starts = o.starts; nodes = s.nodes })
        (omega (arith, o.counted, o.bounded))) [
          | inl (ne, (r, e, is, n, ext)) ↦ (
            r.heap,
            record l { head = r.head; count = r.count },
            ps ++ a.malloc h ∷ [],
            rw e,
            after (ps ++ a.malloc h ∷ []) r is ext
                (λ b. All-append_left (λ p. p ≢ b) ps (a.malloc h ∷ [])),
            record {
              starts = is.starts;
              counted = omega (arith, n, o.counted, length-append ps (a.malloc h ∷ []));
              exact = λ p. omega (arith, n, o.exact p, length-append ps (a.malloc h ∷ []));
              bounded = omega (arith, n, o.bounded);
            },
            refl,
          )
          | inr (e_null, (r, e, is, n, ext)) ↦ (
            r.heap,
            record l { head = r.head; count = r.count },
            ps,
            rw e,
            after ps r is ext (λ b apart. apart),
            record {
              starts = is.starts;
              counted = omega (arith, n, o.counted);
              exact = λ p. absurd (p h e_null);
              bounded = omega (arith, n, o.bounded);
            },
            refl,
          )
        ]
    where
      after :
          (ps' : List Ptr) (r : Queue)
          → IsQueue r ps'
          → Extends h ps r.heap ps'
          → ((b : Ptr) → Apart b ps' → Apart b ps)
          → Shape r.heap ps' qs
      after ps' r is ext smaller =
          let (l', d') = ext.others qs s.nodes_2 s.disjoint in
          record {
            nodes = is.nodes;
            nodes_2 = l';
            disjoint = d';
            rest = λ b apart apart_2. ext.same b apart ∙ s.rest b (smaller b apart) apart_2;
          }

  -- From a queue with elements, the first one leaves.
  pub leaves :
      (flag : Bool) (adr : (ℕ → Ptr) × ℕ) (b : ℕ) (h : Heap) (l : Line) (ps qs : List Ptr)
      → Shape h ps qs
      → Holds l ps b
      → (l.head == null) ≡ false
      → adr.1 < size
      → (adr' : (ℕ → Ptr) × ℕ) × (h' : Heap) × (l' : Line) × (ps' : List Ptr) × (leave flag adr h l
          ≡ some (adr'.0, adr'.1, h', l'))
        × Shape h' ps' qs
        × Holds l' ps' b
        × (l'.n_quit ≡ l.n_quit + 1)
        × (adr'.1 < size)
  unfolding leave
  leaves flag adr b h l [] qs s o some_head small = absurd (ground (arith, o.starts, some_head))
  leaves flag (adr, i) b h l (p ∷ ps) qs s o some_head small =
      let (adr', i', h', e, left, freed, same, others, small') =
        get_time_work_exit_element_lem flag adr i h p ps l.n_quit s.nodes small in
      (
        (adr', i'),
        h',
        record l { head = first ps; n_quit = l.n_quit + 1 },
        ps,
        rw o.starts (rw e),
        record {
          nodes = left;
          nodes_2 = others qs s.nodes_2 s.disjoint;
          disjoint = Apart-rest p ps qs s.disjoint;
          rest = λ b apart apart_2. elim (ℕ_discrete p b) [
            | yes q ↦ subst (λ c. h'.at c ≡ none) q freed
            | no ne ↦ same b ne ∙ s.rest b (ne, apart) apart_2
          ];
        },
        record {
          starts = refl;
          counted = omega (arith, o.counted);
          exact = λ p. omega (arith, o.exact p);
          bounded = o.bounded;
        },
        refl,
        small',
      )

  -- Both queues, of `b` and `c` requests at most.
  pub record Good (b c : ℕ) (l : Lines) : Type 0 where
    pub ps : List Ptr
    pub qs : List Ptr
    pub shape : Shape l.heap ps qs
    pub one : Holds l.one ps b
    pub two : Holds l.two qs c
    pub index : l.adr.1 < size

  pub Good-later : {b c b' c' : ℕ} {l : Lines} → b ≤ b' → c ≤ c' → Good b c l → Good b' c' l
  Good-later le le' g = record {
    ps = g.ps;
    qs = g.qs;
    shape = g.shape;
    one = Holds-later le g.one;
    two = Holds-later le' g.two;
    index = g.index;
  }

  pub Good-two : {b c : ℕ} {l : Lines} (g : Good b c l) → Shape l.heap g.qs g.ps
  Good-two g = Shape-swap g.shape
