-- ===== src/Session/Offer.antt =====
-- What the session manager makes of the results of Publication::offer.
use aeron_cluster_client_cpp.Prelude.{Bool, true, false, if◌then◌else◌}
use aeron_cluster_client_cpp.Prelude.Int.{ℤ, pos, negsuc, is_positive, eq_ℤ}
use aeron_cluster_client_cpp.Session.State.{
  Session, Description, no_description, not_connected, back_pressured, admin_action, closed,
  max_position_exceeded, driver_error, not_ready, unknown_status, call_state_callback,
}

pub data OfferFailureCode : Type 0 where
  success not_connected_failure back_pressured_failure admin_action_failure : OfferFailureCode
  publication_closed max_position_failure driver_failure unknown_failure : OfferFailureCode

-- The statuses that Aeron documents, as the texts of `describe_offer_failure` give them: -1 not
-- connected, -2 back pressured, -3 admin action, -4 closed, -5 maximum position, -6 error.
unfoldable pub classify_offer_failure : ℤ → OfferFailureCode
classify_offer_failure result =
    if is_positive result
    then success
    else if eq_ℤ result (negsuc 0)
    then not_connected_failure
    else if eq_ℤ result (negsuc 1)
    then back_pressured_failure
    else if eq_ℤ result (negsuc 2)
    then admin_action_failure
    else if eq_ℤ result (negsuc 3)
    then publication_closed
    else if eq_ℤ result (negsuc 4)
    then max_position_failure
    else if eq_ℤ result (negsuc 5)
    then driver_failure
    else unknown_failure

unfoldable pub describe_offer_failure : ℤ → Description
describe_offer_failure result =
    if eq_ℤ result (negsuc 0)
    then not_connected
    else if eq_ℤ result (negsuc 1)
    then back_pressured
    else if eq_ℤ result (negsuc 2)
    then admin_action
    else if eq_ℤ result (negsuc 3)
    then closed
    else if eq_ℤ result (negsuc 4)
    then max_position_exceeded
    else if eq_ℤ result (negsuc 5)
    then driver_error
    else if eq_ℤ result (pos 0)
    then not_ready
    else unknown_status result

unfoldable pub is_transient_failure : OfferFailureCode → Bool
is_transient_failure back_pressured_failure = true
is_transient_failure admin_action_failure = true
is_transient_failure _ = false

unfoldable pub is_connection_loss_failure : OfferFailureCode → Bool
is_connection_loss_failure not_connected_failure = true
is_connection_loss_failure publication_closed = true
is_connection_loss_failure max_position_failure = true
is_connection_loss_failure driver_failure = true
is_connection_loss_failure _ = false

unfoldable pub clear_last_publication_error : Session → Session
clear_last_publication_error s = record s {
  last_offer_error_code = pos 0;
  last_offer_error_message = no_description;
}

unfoldable pub update_last_publication_error : ℤ → Description → Session → Session
update_last_publication_error code message s = record s {
  last_offer_error_code = code;
  last_offer_error_message = message;
}

unfoldable pub handle_connection_loss : Session → Session
handle_connection_loss s =
    if s.connected then call_state_callback false (record s { connected = false }) else s

abbrev pub is_success : OfferFailureCode → Bool
is_success success = true
is_success _ = false

-- The new state and the class of the failure.
unfoldable pub handle_offer_failure : ℤ → Session → Session × OfferFailureCode
unfolding classify_offer_failure describe_offer_failure is_connection_loss_failure
    clear_last_publication_error update_last_publication_error handle_connection_loss
handle_offer_failure result s =
    let code = classify_offer_failure result in
    let s1 = update_last_publication_error result (describe_offer_failure result) s in
    if is_success code
    then (clear_last_publication_error s, code)
    else ((if is_connection_loss_failure code then handle_connection_loss s1 else s1), code)
