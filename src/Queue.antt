-- ===== src/Queue.antt =====
-- unix-lab-02/task3/lab_05_02/src/list.c: the queue in a linked list, and the clock of the
-- simulation (get_min). `none` is a fault, or a walk out of fuel.
pub mod Chain
pub mod Create
pub mod Fifo
pub mod Clock
pub mod Ring
pub mod Times
pub mod Simulation
pub mod Main
pub mod ArraySimulation
pub mod Tests
use ics7_os.Common.{
  ℕ, zero, suc, ◌+◌, ◌-◌, ◌≡◌, Bool, true, false, Option, none, some, List, [], ◌∷◌, ◌++◌, ◌==◌,
  if◌then◌else◌,
}
use ics7_os.Common.Options.{◌>>=◌}
use ics7_os.Memory.{Ptr, null, Memory, Malloc, write, load}

-- struct list: a node is its `next`.
abbrev pub Heap : Type 0
Heap = Memory Ptr

abbrev pub Allocator : Type 0
Allocator = Malloc Ptr

-- The last node from `cur` on.
unfoldable pub walk : ℕ → Heap → Ptr → Option Ptr
walk zero h cur = none
walk (suc k) h cur =
    load h cur >>= λ next. elim (next == null) [ true ↦ some cur | false ↦ walk k h next ]

-- The heap, and the result.
unfoldable pub add_end : ℕ → Heap → Ptr → Ptr → Option (Heap × Ptr)
add_end k h head language =
    if head == null
    then some (h, language)
    else walk k h head >>= λ cur. some (write h cur (some language), head)

unfoldable pub create_list : Allocator → Heap → Ptr → Heap × Ptr
create_list a h head =
    let tmp = a.malloc h in
    if tmp == null
    then (h, head)
    else (write (write h tmp (some (a.contents h))) tmp (some null), tmp)

unfoldable pub pop : Heap → Ptr → Option (Heap × Ptr)
pop h head =
    if head == null then some (h, null) else load h head >>= λ next. some (write h head none, next)

unfoldable pub list_size : ℕ → Heap → Ptr → Option ℕ
list_size zero h head = none
list_size (suc k) h head = elim (head == null) [
  | true ↦ some 0
  | false ↦ load h head >>= λ next. list_size k h next >>= λ count. some (count + 1)
]

unfoldable pub free_all : ℕ → Heap → Ptr → Option Heap
free_all zero h head = none
free_all (suc k) h head = elim (head == null) [
  | true ↦ some h
  | false ↦ load h head >>= λ next. free_all k (write h head none) next
]

-- The caller's queue: the heap, `head` and `count`.
pub record Queue : Type 0 where
  pub heap : Heap
  pub head : Ptr
  pub count : ℕ

unfoldable pub add_element_to_queue : Allocator → ℕ → Queue → Option Queue
add_element_to_queue a k q =
    if q.head == null
    then (let r = create_list a q.heap q.head in
        some (record { heap = r.0; head = r.1; count = q.count + 1 }))
    else (let r = create_list a q.heap null in
        add_end k r.0 q.head r.1 >>= λ e.
        some (record { heap = e.0; head = e.1; count = q.count + 1 }))

-- N of defines.h
abbrev pub size : ℕ
size = 1000

-- `adr`, as far as it was written, and `adr_num`.
unfoldable pub get_adr : Bool → (ℕ → Ptr) × ℕ → Ptr → (ℕ → Ptr) × ℕ
get_adr flag (adr, adr_num) head =
    let i = if adr_num == size - 1 then 0 else adr_num in
    if flag then ((λ j. if i == j then head else adr j), i + 1) else (adr, adr_num)

-- `get_time_work_exit_element`, but for `t_work`, which only grows by `t_out`.
unfoldable pub get_time_work_exit_element :
    Bool → (ℕ → Ptr) × ℕ → Heap → Ptr → ℕ → Option ((ℕ → Ptr) × ℕ × Heap × Ptr × ℕ)
get_time_work_exit_element flag adr h head n_quit =
    let r = get_adr flag adr head in pop h head >>= λ e. some (r.0, r.1, e.0, e.1, n_quit + 1)
