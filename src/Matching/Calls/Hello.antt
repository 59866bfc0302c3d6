-- ===== src/Matching/Calls/Hello.antt =====
-- The hello data: proNetAdhocMatchingSetHelloOpt and proNetAdhocMatchingGetHelloOpt of
-- pspnet_adhoc_matching/library/calls.
use aemu.Base.{ℕ, not, Option, none, some, ◌==◌, ltb, if◌then◌else◌, take, replicate}
use aemu.Bytes.{Bytes}
use aemu.Chain.{null}
use aemu.Matching.{Context, Room, address, allocated}
use aemu.Matching.Packet.{is_positive}
use aemu.Matching.Calls.{Library, Reply, Answer, answer, with_context}
use aemu.Matching.Calls.Target.{Given, is_valid_opt, given_bytes}
use aemu.Matching.Mode
use aemu.Matching.Error

abbrev pub set_hello : ℕ → Option Bytes → Room → Room
set_hello len hello s = record s { context = record s.context { hellolen = len; hello = hello } }

-- proNetAdhocMatchingSetHelloOpt
unfoldable pub store_hello : Given → Room → Answer
store_hello given s =
    let emptied = set_hello 0 none s in
    let stored = set_hello given.len (some (given_bytes given)) (allocated emptied) in
    if given.len == 0
    then answer 0 emptied
    else if address s == null
    then answer Error.no_space (allocated emptied)
    else answer 0 stored

unfoldable pub set_hello_in : Given → Room → Answer
set_hello_in given s =
    if s.context.mode == Mode.child
    then answer Error.invalid_mode s
    else if not s.context.running
    then answer Error.not_running s
    else if not (is_valid_opt given)
    then answer Error.invalid_optlen s
    else store_hello given s

unfoldable pub set_hello_opt : ℕ → Given → Library → Reply
set_hello_opt id given = with_context id (set_hello_in given)

-- What proNetAdhocMatchingGetHelloOpt copies to a buffer of this length: the length is an int, and
-- what it writes to `*buflen` is the length of the copy.
unfoldable pub get_hello : Context → ℕ → Bytes
get_hello c buflen =
    let fixed = if is_positive buflen then buflen else 0 in
    let len = if ltb c.hellolen fixed then c.hellolen else fixed in
    elim c.hello [ none ↦ replicate len 0 | some bytes ↦ take len bytes ]
