-- ===== src/Routing/Threads.antt =====
-- The threads of a handler and the functions that it queues for them: ThreadContext::instance,
-- start_request_threads, request_worker_fn, call_async_function_i, do_route_off, stop_request_threads,
-- and shutdown_channels, of src/OOServer/MessageConnection.cpp.
use oocore.Prelude.{
  ℕ, zero, suc, ◌+◌, Bool, true, false, Option, none, some, List, [], ◌∷◌, ◌==◌, if◌then◌else◌,
}
use oocore.Routing.Table.{HashTable}
use oocore.Routing.Handler.{
  Message, request, Incoming, corrupt, truncated, whole, IoResult, success, channel_closed, failed,
  Context, Handler, act, started, stopped, ended, joined, asynchronous, async_function,
}
use oocore.Routing.Env.{Env}
use oocore.Routing.Send.{call_route_off, on_closed}
use oocore.Routing.Receive.{queue_message}
use oocore.Routing.Wait.{Manager, PumpTurn, insert_thread_context, pump_requests}

module _ {H : HashTable ℕ} {P : Type 0} where
  -- The id of the calling thread's context, 0 if it has none yet; `id` is what the handle table gives.
  unfoldable pub instance_of : ℕ → Option ℕ → HashTable.Carrier H → Handler H P → Handler H P × ℕ
  instance_of thread id empty h =
      if thread == 0 then insert_thread_context id empty h else (h, thread)

  -- The queues of the contexts
  unfoldable pub end_queues : List (Context H) → Handler H P → Handler H P
  end_queues [] h = h
  end_queues (c ∷ cs) h = end_queues cs (act (ended c.thread_id) h)

  unfoldable pub stop_request_threads : Handler H P → Handler H P
  stop_request_threads h = act joined (act (ended 0) (end_queues h.contexts h))

  -- A round for each channel; none: the rounds have not been enough
  unfoldable pub shutdown_channels : ℕ → Handler H P → Option (Handler H P)
  shutdown_channels zero h = none
  shutdown_channels (suc fuel) h = elim (HashTable.pop H h.channels) [
    | none ↦ some h
    | some (channel, conn, rest) ↦
        shutdown_channels fuel (act (stopped conn) (record h { channels = rest }))
  ]

  unfoldable pub start_threads : ℕ → Handler H P → Handler H P
  start_threads zero h = h
  start_threads (suc n) h = start_threads n (act started h)

  -- `ran`: ThreadPool::run has succeeded.
  unfoldable pub start_request_threads : Bool → ℕ → Handler H P → Bool × Handler H P
  start_request_threads ran threads h = if ran then (true, start_threads threads h) else (false, h)

  -- A worker of the pool
  unfoldable pub request_worker :
      Manager H P → ℕ → List (PumpTurn H P) → Handler H P → Option (Handler H P × ℕ)
  request_worker manager thread turns h = pump_requests manager thread true false turns h

-- MessageHandler::route_off, where a manager does not override it
unfoldable pub route_off : {P : Type 0} → Message P → IoResult
route_off msg = channel_closed

module _ {H : HashTable ℕ} {P : Type 0} (env : Env P) where
  -- `payload` is what is written of the name, the function, its parameter and the stream, if that
  -- succeeds; none in `function` is a null function.
  unfoldable pub call_async_function : Option P → Handler H P → Bool × Handler H P
  call_async_function none h = (false, h)
  call_async_function (some payload) h =
      let (r, h') =
        queue_message env
          (record {
            dest_channel_id = 0;
            src_channel_id = h.channel_id;
            attribs = asynchronous + async_function;
            dest_thread_id = 0;
            src_thread_id = 0;
            type = request;
            payload = payload;
          })
          h in
      (elim r [ success ↦ true | channel_closed ↦ false | failed ↦ false ], h')

  -- The buffer that parse_message has queued, in the thread that calls the function
  unfoldable pub do_route_off : Incoming P → Handler H P → Handler H P
  do_route_off corrupt h = h
  do_route_off (truncated dest src) h = h
  do_route_off (whole msg) h = (call_route_off env msg h).1

  -- MessageConnection::on_sent
  unfoldable pub on_sent : ℕ → ℕ → Bool → Handler H P → Handler H P
  on_sent thread conn sent h = if sent then h else on_closed env thread conn h
