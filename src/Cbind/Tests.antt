-- ===== src/Cbind/Tests.antt =====
-- Runs of the programs of cbind/examples with a binding that answers at once.
mod Samples
use nim_libp2p.Common.{Bool, true, [], false, ℕ, ◌≡◌, refl, arith, Option, none, some, All}
use nim_libp2p.Cbind.Binding
use nim_libp2p.Cbind.Binding.{Bytes, Answer, Binding, codes, pos}
use nim_libp2p.Cbind.Program.{
  Outcome, returned, exited, initial, zeroed, gets, modify, wait_flag, pause, with_two, with_three,
  call, on_true, on_some, both, ◌>>=◌, pure, note, wait_done, poll, sleep, deliver,
  on_incoming_stream, on_pubsub_message, fired, report, destroy,
}
use nim_libp2p.Cbind.Waiters.{
  await_create, created_context, on_created, await_peerinfo, on_peerinfo, await_connect, await_call,
  await_bool, on_bool, await, checked, filled, copied, copied_all, copied_bytes, snprintf, equal,
  c_string, is_within, is_prefix,
}
use nim_libp2p.Cbind.Tests.Samples.{sample, network, sane_host}
use nim_libp2p.Cbind.MobileCheck
use nim_libp2p.Cbind.MobileCheck.{Host}
use nim_libp2p.Cbind.Contexts.{Owning, IsTidy}
use nim_libp2p.Cbind.Status.{Passing, all_passed}
use nim_libp2p.Cbind.Echo
use nim_libp2p.Cbind.ServiceDisco
use nim_libp2p.Cbind.Gossipsub
use nim_libp2p.Cbind.Peerstore
use nim_libp2p.Cbind.Kad
use nim_libp2p.Cbind.Metrics
use nim_libp2p.Cbind.Relay
use nim_libp2p.Cbind.Bounds.{Given, AreErrorsWithin, AreRepliesWithin, callbacks-IsWithin}
use nim_libp2p.Cbind.Waits.{call-is_in_time}
use nim_libp2p.Cbind.Status.Shown.{shown}
use nim_libp2p.Cbind.Status.MobileCheck.{is_start, is_stop}
use nim_libp2p.Cbind.ServiceDisco.{lookup_provider}
use nim_libp2p.Cbind.Status.Shown.ServiceDisco.{is_found, lookup_provider-shown}
use nim_libp2p.Cbind.Status.Nodes.{is_zero}
use nim_libp2p.Cbind.Liveness.{IsPrompt, IsHeard, is_returned}
use nim_libp2p.Cbind.Examples.{
  examples, examples-Owning, examples-Passing, examples-is_returned, mobile_check-Owning,
  mobile_check-shown,
}

network-IsPrompt : IsPrompt network
network-IsPrompt log c = (1, refl, omega arith)

network-IsHeard : IsHeard network
network-IsHeard log =
    ((0, 3, omega arith, refl), (1, some (codes "hello gossipsub"), omega arith, refl))

network-IsTidy : IsTidy network
network-IsTidy log cfg h = absurd (ground arith)

-- The status that a program returns.
abbrev status : Outcome ℕ → Option ℕ
status (returned s w) = some s
status (exited c w) = none

-- With a network that works every program ends with the status 0.
examples-status : All (λ m. status (m network initial) ≡ some 0) examples
unfolding examples Kad.main Kad.kad_node Kad.run_server Kad.serve Kad.run_client Kad.exchange
    Kad.find_provider Kad.bootstrap Kad.is_provider Kad.on_cid Kad.on_value Kad.on_providers
    Kad.value_key Kad.value_data Kad.cid_data Metrics.main Metrics.run Metrics.exchange
    Metrics.on_metrics Metrics.is_metrics Metrics.starts_with_bracket Peerstore.main
    Peerstore.create_node Peerstore.run Peerstore.add_and_delete Peerstore.get_peers Peerstore.holds
    Peerstore.on_peers Peerstore.on_entry Peerstore.proto Echo.main Echo.create_node
    Echo.with_server Echo.run Echo.give_up Echo.exchange Echo.echo_round_trip Echo.serve_echo
    Echo.verify_echo Echo.on_read Echo.on_dial Echo.echo_proto Echo.clear_have_stream Relay.main
    Relay.create_node Relay.run Relay.exchange Relay.started Relay.reserve Relay.send Relay.receive
    Relay.message Relay.relay_proto Relay.circuit_address Gossipsub.main Gossipsub.gossipsub_node
    Gossipsub.run Gossipsub.exchange Gossipsub.start_all Gossipsub.publish Gossipsub.on_publish
    Gossipsub.topic Gossipsub.message ServiceDisco.main ServiceDisco.disco_node
    ServiceDisco.run_provider ServiceDisco.advertise ServiceDisco.run_seeker ServiceDisco.exchange
    ServiceDisco.rejects_disco_before_start ServiceDisco.lookup_provider ServiceDisco.attempt
    ServiceDisco.round_tripped ServiceDisco.on_records ServiceDisco.found
    ServiceDisco.copy_service_data ServiceDisco.is_service ServiceDisco.service_id
    ServiceDisco.service_data c_string is_within is_prefix await_create created_context on_created
    await_peerinfo on_peerinfo await_connect await_call await_bool on_bool await checked filled
    copied copied_all copied_bytes snprintf equal on_true on_some both with_two with_three ◌>>=◌
    pure gets modify note call wait_done wait_flag pause poll sleep deliver on_incoming_stream
    on_pubsub_message fired report destroy
examples-status = (refl, (refl, (refl, (refl, (refl, (refl, (refl, tt)))))))

mobile_check_status : status (MobileCheck.main sane_host network initial) ≡ some 0
unfolding MobileCheck.main MobileCheck.run MobileCheck.create_node MobileCheck.finish_create
    MobileCheck.call_bool_method MobileCheck.finish_call MobileCheck.wait_init
    MobileCheck.wait_destroy MobileCheck.wait_for_callback MobileCheck.wait_result
    MobileCheck.submit MobileCheck.destroy_checked MobileCheck.on_created MobileCheck.on_bool_reply
    MobileCheck.record_error MobileCheck.signal_done MobileCheck.set_ctx MobileCheck.set_reply
    MobileCheck.is_null MobileCheck.timed_wait MobileCheck.mobile_config fired on_true on_some both
    ◌>>=◌ pure note report
mobile_check_status = refl

examples-Owning_example : All (λ m. Owning (λ _. []) (m network initial)) examples
examples-Owning_example = examples-Owning network network-IsTidy

examples-Passing_example : All (λ m. Passing all_passed is_zero (m network initial)) examples
examples-Passing_example = examples-Passing network

examples-is_returned_example : All (λ m. is_returned (m network initial) ≡ true) examples
examples-is_returned_example = examples-is_returned network network-IsPrompt network-IsHeard

mobile_check-shown_example :
    Passing (shown is_start) is_zero (MobileCheck.main sane_host network initial)
    × Passing (shown is_stop) is_zero (MobileCheck.main sane_host network initial)
mobile_check-shown_example = mobile_check-shown sane_host network

-- An answer after 1001 sleeps is too late.
abbrev late : Binding
late = record {
  answer =
      λ log c. record { time = some 1001; code = pos 0; reply = some (sample c); message = none };
  event = λ log i. none;
  submit = λ log c. pos 0;
  teardown = λ log h. pos 0;
}

call-is_in_time_example : is_returned (call (Binding.start 7) late initial) ≡ false
call-is_in_time_example = call-is_in_time late initial (Binding.start 7)

lookup_provider-shown_example :
    Passing
      (shown (is_found (codes "peer")))
      (λ ok. ok)
      (lookup_provider 7 (codes "peer") network (record { log = []; globals = zeroed }))
lookup_provider-shown_example = lookup_provider-shown network zeroed 7 (codes "peer")

mobile_check-Owning_example : Owning (λ _. []) (MobileCheck.main sane_host network initial)
mobile_check-Owning_example = mobile_check-Owning sane_host network network-IsTidy

-- An answer with the reply and with a message.
abbrev answered : {R : Type 0} → R → Answer R
answered r = record { time = some 1; code = pos 0; reply = some r; message = some (codes "done") }

abbrev given : Given
given = record {
  flag = answered true;
  number = answered 7;
  info = answered (sample (Binding.peer_info 7));
  entry = answered (sample (Binding.peerstore_get_peer_info 7 []));
  ids = answered (sample (Binding.peerstore_get_peers 7));
  text = answered (sample Binding.collect_metrics);
  records = answered (sample (Binding.service_disco_lookup 7 []));
  payload = some (codes "hello");
  globals = zeroed;
}

callbacks-IsWithin_example : AreErrorsWithin given × AreRepliesWithin given
callbacks-IsWithin_example = callbacks-IsWithin given
