-- ===== src/Registration.antt =====
-- Registration of include/telling/service_registration.h and src/telling/service_registration.cpp: the
-- request that asks a server for a route, and the delegate that reads the reply. The request goes
-- through a Request; what the delegate is told by it are its calls here.
pub mod Opening
pub mod Outcomes
pub mod Refusal
use telling.Layout.{MsgType}
use telling.Method.{MethodCode}
use telling.MsgError.{Result, ok, err, ◌>>=◌}
use telling.Prelude.{
  ℕ, Bool, true, false, ◌||◌, Option, none, some, List, [], ◌∷◌, ◌++◌, Bytes, codes, ◌==◌,
  if◌then◌else◌,
}
use telling.Protocol.{MsgProtocol}
use telling.SendLoop.{AioResult}
use telling.Status.{
  is_successful, is_client_error, is_server_error, is_informational, is_redirection, parse,
}
use telling.View.{MsgView, view, status_string}
use telling.Writer.Release.{release}
use telling.Writer.RoundTrip.{write_request}
use telling.Writer.{MsgWriter}

-- `STATUS`
pub data RegistrationStatus : Type 0 where
  initial requested enlisted failed : RegistrationStatus

-- The errors of nng that an exception of the delegate has.
pub data ErrorType : Type 0 where
  no_error internal perm addrinuse exist addrinval : ErrorType
  of_aio : AioResult → ErrorType

-- `nng::exception`
pub record Exception : Type 0 where
  pub error : ErrorType
  pub source : Bytes

pub record Delegate : Type 0 where
  pub status : RegistrationStatus
  pub except : Exception

abbrev pub new_delegate : Delegate
new_delegate = record { status = initial; except = record { error = no_error; source = [] } }

-- The `switch` for an error of the client.
unfoldable pub client_error : ℕ → ErrorType
client_error code =
    if code == 401
    then perm
    else if code == 409
    then addrinuse
    else if code == 404
    then exist
    else if code == 414
    then addrinval
    else internal

-- The exception for a reply that is no success.
unfoldable pub failure : ℕ → Exception
unfolding client_error is_client_error is_server_error is_informational is_redirection
failure code =
    if is_client_error code
    then record { error = client_error code; source = codes "Registration Request Error" }
    else if is_server_error code
    then record { error = internal; source = codes "Registration Server Error" }
    else if is_informational code
    then record { error = internal; source = codes "Registration Informational Reply" }
    else if is_redirection code
    then record { error = internal; source = codes "Registration Redirection" }
    else record { error = internal; source = codes "Registration Reply Status" }

unfoldable pub reply_received : ℕ → Delegate → Delegate
unfolding failure is_successful
reply_received code d =
    if is_successful code
    then record d { status = enlisted }
    else record { status = failed; except = failure code }

-- `async_sent`
unfoldable pub async_sent : Delegate → Delegate
async_sent d = record d { status = requested }

-- `async_recv`, which lets the exception of the parser through.
unfoldable pub async_recv : Bytes → Delegate → Result Delegate
unfolding reply_received
async_recv response d = do
  reply ← view response MsgType.reply
  ok (reply_received (parse (status_string reply)) d)

-- `async_error`
unfoldable pub async_error : AioResult → Delegate → Delegate
async_error e d = record {
  status = failed;
  except = record { error = of_aio e; source = codes "Registration Networking Error" };
}

-- `isWorking`
unfoldable pub is_working : Delegate → Bool
is_working d = elim d.status [
  | initial ↦ true
  | requested ↦ true
  | enlisted ↦ false
  | failed ↦ false
]

-- `isRegistered`
unfoldable pub is_registered : Delegate → Bool
is_registered d = elim d.status [
  | enlisted ↦ true
  | initial ↦ false
  | requested ↦ false
  | failed ↦ false
]

-- `if (!servicePath_alias.length()) servicePath_alias = servicePath;`
unfoldable pub alias_or_path : Bytes → Bytes → Bytes
alias_or_path service_path [] = service_path
alias_or_path service_path (c ∷ alias) = c ∷ alias

-- The request of the constructor.
unfoldable pub registration_request : Bytes → Bytes → Result (Option Bytes × MsgWriter)
unfolding alias_or_path write_request
registration_request service_path alias =
    write_request MethodCode.post (codes "*services") MsgProtocol.tell []
      (alias_or_path service_path alias ++ (b'\n' ∷ service_path))
