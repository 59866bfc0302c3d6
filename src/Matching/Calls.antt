-- ===== src/Matching/Calls.antt =====
-- The library and its contexts: proNetAdhocMatchingInit, proNetAdhocMatchingCreate and
-- proNetAdhocMatchingDelete of pspnet_adhoc_matching/library/calls, and the search for contexts and
-- ids of pspnet_adhoc_matching/library/functions.c. An int is its bit pattern.
pub mod Target
pub mod Hello
pub mod Run
pub mod Ids
pub mod Failed
pub mod Ended
pub mod GetMembers
use aemu.Base.{
  ℕ, zero, suc, ◌+◌, ◌-◌, ◌*◌, ◌%◌, ◌^◌, Bool, true, false, not, ◌&&◌, ◌||◌, Option, none, some,
  List, [], ◌∷◌, ◌++◌, ◌==◌, leb, ltb, if◌then◌else◌, drop, get_or,
}
use aemu.Bytes.{Bytes}
use aemu.Chain.{null}
use aemu.Matching.{Context, Room, World, Effect}
use aemu.Matching.Packet.{is_positive}
use aemu.Matching.Error

-- _init, _fake_poolsize, _contexts, and the system.
pub record Library : Type 0 where
  pub init : ℕ
  pub poolsize : ℕ
  pub contexts : List Context
  pub world : World

-- What a call returns, and the library, or the context, afterwards.
pub record Reply : Type 0 where
  pub code : ℕ
  pub library : Library

pub record Answer : Type 0 where
  pub code : ℕ
  pub room : Room

abbrev pub reply : ℕ → Library → Reply
reply code l = record { code = code; library = l }

abbrev pub answer : ℕ → Room → Answer
answer code s = record { code = code; room = s }

-- _findMatchingContext
unfoldable pub find_matching_context : ℕ → List Context → Option Context
find_matching_context id [] = none
find_matching_context id (c ∷ cs) = if c.id == id then some c else find_matching_context id cs

-- The contexts after writes through the pointer that _findMatchingContext returns.
unfoldable pub put_context : ℕ → Context → List Context → List Context
put_context id new [] = []
put_context id new (c ∷ cs) = if c.id == id then new ∷ cs else c ∷ put_context id new cs

unfoldable pub remove_context : ℕ → List Context → List Context
remove_context id [] = []
remove_context id (c ∷ cs) = if c.id == id then cs else c ∷ remove_context id cs

-- "Found Matching Context"
unfoldable pub on_context : Option Context → ℕ → (Room → Answer) → Library → Reply
on_context none id f l = reply Error.invalid_id l
on_context (some c) id f l =
    let a = f (record { context = c; world = l.world }) in
    reply a.code
      (record l { contexts = put_context id a.room.context l.contexts; world = a.room.world })

-- "Library initialized", and the context for the id
unfoldable pub with_context : ℕ → (Room → Answer) → Library → Reply
with_context id f l =
    if l.init == 1
    then on_context (find_matching_context id l.contexts) id f l
    else reply Error.not_initialized l

-- proNetAdhocMatchingInit
unfoldable pub matching_init : ℕ → Library → Reply
matching_init poolsize l =
    if l.init == 0
    then reply 0 (record l { init = 1; poolsize = poolsize })
    else reply Error.already_initialized l

-- "Find highest Matching ID"
unfoldable pub max_id : ℕ → List Context → ℕ
max_id max [] = max
max_id max (c ∷ cs) = max_id (if ltb max c.id then c.id else max) cs

-- `== NULL`
abbrev pub is_absent : Option Context → Bool
is_absent none = true
is_absent (some c) = false

abbrev pub is_free : ℕ → List Context → Bool
is_free id cs = is_absent (find_matching_context id cs)

-- "Find unoccupied ID": `rounds` ids from i on, then "Append at virtual end".
unfoldable pub free_loop : ℕ → ℕ → ℕ → List Context → ℕ
free_loop zero i max cs = max + 1
free_loop (suc rounds) i max cs =
    let rest = free_loop rounds (i + 1) max cs in if is_free i cs then i else rest

-- _findFreeMatchingID
unfoldable pub find_free_matching_id : List Context → ℕ
find_free_matching_id cs = let max = max_id 0 cs in free_loop (max - 1) 1 max cs

unfoldable pub has_port : ℕ → List Context → Bool
has_port port [] = false
has_port port (c ∷ cs) = c.port == port || has_port port cs

-- `(uint64_t) n` for an int
unfoldable pub widen : ℕ → ℕ
widen n = if is_positive n then n else n + (2 ^ 64 - 2 ^ 32)

-- The arguments of proNetAdhocMatchingCreate.
pub record Settings : Type 0 where
  pub mode : ℕ
  pub maxnum : ℕ
  pub port : ℕ
  pub rxbuflen : ℕ
  pub hello_int : ℕ
  pub keepalive_int : ℕ
  pub init_count : ℕ
  pub rexmt_int : ℕ

-- "Fill in Context Data"
unfoldable pub new_context : Settings → ℕ → ℕ → Bytes → Context
new_context a id socket mac = record {
  id = id;
  mode = a.mode;
  running = false;
  maxpeers = a.maxnum;
  mac = mac;
  peerlist = [];
  port = a.port;
  socket = socket;
  rxbuflen = a.rxbuflen;
  hello_int = a.hello_int;
  keepalive_int = if a.keepalive_int == 2 ^ 32 - 1 then 2000000 else a.keepalive_int;
  resend_int = a.rexmt_int;
  resendcounter = a.init_count;
  keepalivecounter = 100;
  timeout = ((a.keepalive_int + a.rexmt_int) * widen a.init_count + 500000 + 1000000) % 2 ^ 64;
  hellolen = 0;
  hello = none;
  event_stack = [];
  input_stack = [];
}

abbrev pub library_allocated : Library → Library
library_allocated l = record l { world = record l.world { mallocs = drop 1 l.world.mallocs } }

abbrev pub library_address : Library → ℕ
library_address l = get_or l.world.mallocs 0 null

abbrev pub library_closed : ℕ → Library → Library
library_closed socket l = record l {
  world = record l.world { effects = l.world.effects ++ Effect.socket_closed socket ∷ [] };
}

-- proNetAdhocMatchingCreate once the arguments are valid; `socket` is what sceNetAdhocPdpCreate
-- returns.
unfoldable pub create_context : Settings → ℕ → Library → Reply
create_context a socket l =
    let l1 = library_allocated l in
    let l2 = library_allocated l1 in
    let id = find_free_matching_id l2.contexts in
    let created =
      reply id
        (record l2 { contexts = new_context a id socket l2.world.local_mac ∷ l2.contexts }) in
    if library_address l == null
    then reply Error.no_space l1
    else if not (ltb 0 socket && is_positive socket)
    then reply Error.port_in_use l1
    else if library_address l1 == null
    then reply Error.no_space (library_closed socket l2)
    else created

unfoldable pub matching_create : Settings → ℕ → Library → Reply
matching_create a socket l =
    if not (l.init == 1)
    then reply Error.not_initialized l
    else if not (ltb 1 a.maxnum && leb a.maxnum 16)
    then reply Error.invalid_maxnum l
    else if not (ltb 0 a.rxbuflen && is_positive a.rxbuflen)
    then reply Error.rxbuf_too_short l
    else if not (leb 1 a.mode && leb a.mode 3)
    then reply Error.invalid_arg l
    else if has_port a.port l.contexts
    then reply Error.port_in_use l
    else create_context a socket l

-- proNetAdhocMatchingDelete
unfoldable pub delete_found : Option Context → ℕ → Library → Reply
delete_found none id l = reply Error.invalid_id l
delete_found (some c) id l =
    let closed = library_closed c.socket l in
    if c.running
    then reply Error.is_running l
    else reply 0 (record closed { contexts = remove_context id l.contexts })

unfoldable pub matching_delete : ℕ → Library → Reply
matching_delete id l =
    if l.init == 1
    then delete_found (find_matching_context id l.contexts) id l
    else reply Error.not_initialized l
