-- ===== src/Matching/Calls/Run.antt =====
-- Starting and stopping: proNetAdhocMatchingStart, proNetAdhocMatchingStop and
-- proNetAdhocMatchingTerm of pspnet_adhoc_matching/library/calls.
use aemu.Base.{
  ℕ, zero, suc, Bool, true, false, not, ◌&&◌, none, some, List, [], ◌∷◌, ◌==◌, if◌then◌else◌,
  length,
}
use aemu.Chain.{null}
use aemu.Matching.{Context, Room, address, allocated, tick}
use aemu.Matching.Threads.{end_event_thread}
use aemu.Matching.Threads.Input.{end_input_thread}
use aemu.Matching.Calls.{Library, Reply, Answer, reply, answer, with_context, matching_delete}
use aemu.Matching.Calls.Target.{Given, is_valid_opt, given_bytes}
use aemu.Matching.Calls.Hello.{set_hello}
use aemu.Matching.Error

abbrev pub set_running : Bool → Room → Room
set_running b s = record s { context = record s.context { running = b } }

-- proNetAdhocMatchingStart after the checks; `setup` tells if _setupMatchingThreads returns 0.
unfoldable pub start_context : Given → Bool → Room → Answer
start_context given setup s =
    let begun =
      if given.len == 0
      then set_hello 0 none s
      else set_hello given.len (some (given_bytes given)) (allocated s) in
    if not (given.len == 0) && address s == null
    then answer Error.no_space (allocated s)
    else if setup
    then answer 0 (set_running true begun)
    else answer Error.no_space (set_hello 0 none begun)

unfoldable pub start_in : Given → Bool → Room → Answer
start_in given setup s =
    if s.context.running
    then answer Error.is_running s
    else if not (is_valid_opt given)
    then answer Error.invalid_optlen s
    else start_context given setup s

unfoldable pub matching_start : ℕ → Given → Bool → Library → Reply
matching_start id given setup = with_context id (start_in given setup)

-- proNetAdhocMatchingStop: the input thread ends, then the event thread.
unfoldable pub stop_in : Room → Answer
stop_in s =
    let ended = end_event_thread (end_input_thread (tick s)) in
    answer 0 (if s.context.running then set_running false (set_hello 0 none ended) else s)

unfoldable pub matching_stop : ℕ → Library → Reply
matching_stop id = with_context id stop_in

-- A round of "Stop and delete all contexts": the first context, if there is one.
unfoldable pub end_first : List Context → Library → Library
end_first [] l = l
end_first (c ∷ cs) l = (matching_delete c.id (matching_stop c.id l).library).library

-- The loop, `fuel` rounds; without a context a round does nothing.
unfoldable pub term_loop : ℕ → Library → Library
term_loop zero l = l
term_loop (suc fuel) l = term_loop fuel (end_first l.contexts l)

-- proNetAdhocMatchingTerm
unfoldable pub matching_term : Library → Reply
matching_term l =
    let ended = term_loop (length l.contexts) l in
    reply 0 (if l.init == 1 then record ended { init = 0; poolsize = 0 } else l)
