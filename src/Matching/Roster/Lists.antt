-- ===== src/Matching/Roster/Lists.antt =====
-- Lists of peers that shrink and grow: the pointer operations of
-- pspnet_adhoc_matching/library/functions.c.
use aemu.Base.{
  ℕ, ◌+◌, ◌≡◌, ◌≤◌, refl, ◌∙◌, Bool, true, false, Option, none, some, List, [], ◌∷◌, ◌==◌,
  if◌then◌else◌, count, arith, Bool-cases, inl, inr,
}
use aemu.Bytes.{Bytes}
use aemu.Chain.{Ptr, null}
use aemu.Matching.{Mac, Member, Room, World, Effect, peers, address, allocated, tick, act}
use aemu.Matching.Members.{
  erase_node, change_node, change_peer, add_peer, delete_peer, Stack, link_message,
  send_generic_message, find_peer, clear_loop,
}
use aemu.Matching.Roster.{Shrinks, Grows}

pub count-erase_node :
    (f : Member → Bool) (n : Ptr) (ps : List Member) → count f (erase_node n ps) ≤ count f ps
count-erase_node f n [] = omega arith
count-erase_node f n (p ∷ ps) = ground (arith, count-erase_node f n ps)

pub count-change_node :
    (t : ℕ → Bool) (n : Ptr) (g : Member → Member) (k : ℕ) (ps : List Member)
    → ((p : Member) → (g p).state ≡ k)
    → count (λ p. t p.state) (change_node n g ps)
      ≤ (if t k then 1 else 0) + count (λ p. t p.state) ps
count-change_node t n g k [] h = ground arith
count-change_node t n g k (p ∷ ps) h = elim (Bool-cases (p.node == n)) [
  | inl e ↦ rw (e, h p) (ground arith)
  | inr e ↦ rw e (ground (arith, count-change_node t n g k ps h))
]

pub count-touch :
    (t : ℕ → Bool) (n : Ptr) (g : Member → Member) (ps : List Member)
    → ((p : Member) → (g p).state ≡ p.state)
    → count (λ p. t p.state) (change_node n g ps) ≡ count (λ p. t p.state) ps
count-touch t n g [] h = refl
count-touch t n g (p ∷ ps) h = elim (Bool-cases (p.node == n)) [
  | inl e ↦ rw (e, h p) refl
  | inr e ↦ rw e (ground (arith, count-touch t n g ps h))
]

pub Shrinks-refl : (s : Room) → Shrinks s s
Shrinks-refl s = record { id = refl; mode = refl; maxpeers = refl; counts = λ t. omega arith }

-- A change of the system alone.
pub world-Shrinks : (s : Room) (w : World) → Shrinks s (record s { world = w })
world-Shrinks s w = record { id = refl; mode = refl; maxpeers = refl; counts = λ t. omega arith }

pub allocated-Shrinks : (s : Room) → Shrinks s (allocated s)
allocated-Shrinks s = world-Shrinks s _

pub tick-Shrinks : (s : Room) → Shrinks s (tick s)
tick-Shrinks s = world-Shrinks s _

pub act-Shrinks : (e : Effect) (s : Room) → Shrinks s (act e s)
act-Shrinks e s = world-Shrinks s _

pub Shrinks-trans : {a b c : Room} → Shrinks a b → Shrinks b c → Shrinks a c
Shrinks-trans x y = record {
  id = y.id ∙ x.id;
  mode = y.mode ∙ x.mode;
  maxpeers = y.maxpeers ∙ x.maxpeers;
  counts = λ t. omega (arith, x.counts t, y.counts t);
}

pub if-Shrinks :
    {s a b : Room} (q : Bool) → Shrinks s a → Shrinks s b → Shrinks s (if q then a else b)
if-Shrinks true x y = x
if-Shrinks false x y = y

pub Grows-Shrinks : (k : ℕ) {a b : Room} → Shrinks a b → Grows k a b
Grows-Shrinks k x = record {
  id = x.id;
  mode = x.mode;
  maxpeers = x.maxpeers;
  counts = λ t. ground (arith, x.counts t);
}

pub Grows-then : {k : ℕ} {a b c : Room} → Grows k a b → Shrinks b c → Grows k a c
Grows-then x y = record {
  id = y.id ∙ x.id;
  mode = y.mode ∙ x.mode;
  maxpeers = y.maxpeers ∙ x.maxpeers;
  counts = λ t. omega (arith, x.counts t, y.counts t);
}

pub Grows-after : {k : ℕ} {a b c : Room} → Shrinks a b → Grows k b c → Grows k a c
Grows-after x y = record {
  id = y.id ∙ x.id;
  mode = y.mode ∙ x.mode;
  maxpeers = y.maxpeers ∙ x.maxpeers;
  counts = λ t. omega (arith, x.counts t, y.counts t);
}

pub if-Grows :
    {k : ℕ} {s a b : Room} (q : Bool) → Grows k s a → Grows k s b → Grows k s (if q then a else b)
if-Grows true x y = x
if-Grows false x y = y

-- A write that keeps the state, and one that sets it.
pub touch-Shrinks :
    (n : Ptr) (g : Member → Member) (s : Room)
    → ((p : Member) → (g p).state ≡ p.state)
    → Shrinks s (change_peer n g s)
touch-Shrinks n g s h = record {
  id = refl;
  mode = refl;
  maxpeers = refl;
  counts = λ t. omega (arith, count-touch t n g (peers s) h);
}

pub change-Grows :
    (n : Ptr) (g : Member → Member) (k : ℕ) (s : Room)
    → ((p : Member) → (g p).state ≡ k)
    → Grows k s (change_peer n g s)
change-Grows n g k s h = record {
  id = refl;
  mode = refl;
  maxpeers = refl;
  counts = λ t. count-change_node t n g k (peers s) h;
}

pub delete_peer-Shrinks : (o : Option Member) (s : Room) → Shrinks s (delete_peer o s)
unfolding delete_peer
delete_peer-Shrinks none s = Shrinks-refl s
delete_peer-Shrinks (some p) s = record {
  id = refl;
  mode = refl;
  maxpeers = refl;
  counts = λ t. count-erase_node (λ q. t q.state) p.node (peers s);
}

pub link_message-Shrinks : (stack : Stack) (m : _) (s : Room) → Shrinks s (link_message stack m s)
unfolding link_message
link_message-Shrinks Stack.input m s = record {
  id = refl;
  mode = refl;
  maxpeers = refl;
  counts = λ t. omega arith;
}
link_message-Shrinks Stack.event m s = record {
  id = refl;
  mode = refl;
  maxpeers = refl;
  counts = λ t. omega arith;
}

pub send_generic_message-Shrinks :
    (stack : Stack) (mac : Mac) (opcode : ℕ) (opt : Bytes) (s : Room)
    → Shrinks s (send_generic_message stack mac opcode opt s)
unfolding send_generic_message
send_generic_message-Shrinks stack mac opcode opt s =
    if-Shrinks (address s == null)
      (Shrinks-trans (allocated-Shrinks s)
        (delete_peer-Shrinks (find_peer mac (peers s)) (allocated s)))
      (Shrinks-trans (allocated-Shrinks s)
        (Shrinks-trans (link_message-Shrinks stack _ (allocated s)) (world-Shrinks _ _)))

pub clear_loop-Shrinks : (ps : List Member) (s : Room) → Shrinks s (clear_loop ps s)
unfolding clear_loop
clear_loop-Shrinks [] s = Shrinks-refl s
clear_loop-Shrinks (p ∷ ps) s =
    Shrinks-trans (delete_peer-Shrinks (some p) s) (clear_loop-Shrinks ps (delete_peer (some p) s))

-- Allocating a peer.
pub add_peer-Grows :
    (mac : Mac) (k : ℕ) (failed : Room → Room) (next : Ptr → Room → Room) (s : Room)
    → ((r : Room) → Shrinks r (failed r))
    → ((n : Ptr) (r : Room) → Shrinks r (next n r))
    → Grows k s (add_peer mac k failed next s)
unfolding add_peer
add_peer-Grows mac k failed next s hf hn =
    if-Grows (address s == null)
      (Grows-Shrinks k (Shrinks-trans (allocated-Shrinks s) (hf (allocated s))))
      (Grows-then (record { id = refl; mode = refl; maxpeers = refl; counts = λ t. omega arith })
        (hn (address s) _))
