-- ===== src/Kanali/Device/Calls/Readback.antt =====
-- What a change that was applied guarantees.
use Prim.Native.String.{String}
use tryxctl.Prelude.{◌≡◌, none}
use tryxctl.Device.Product.{Product}
use tryxctl.Kanali.Wire.{RequestBody, Response, UserConfiguration}
use tryxctl.Kanali.Errors.{done}
use tryxctl.Kanali.Session.{Expect, normal}
use tryxctl.Kanali.Device.{Change}
use tryxctl.Kanali.Device.Written.{Asks}
use tryxctl.Kanali.Device.Calls
use tryxctl.Kanali.Device.Calls.{Link, request_of}

module _ (link : Link) (product : Product) where
  -- A configuration with every field that the change names was sent, and acknowledged.
  pub record WasSent (change : Change) : Type 0 where
    pub config : UserConfiguration
    pub asks : Asks change config
    pub before : link.State
    pub reply : Response
    pub acknowledged :
        (link.execute
          (request_of (RequestBody.user_configuration config))
          Expect.acknowledgement
          normal
          none
          before).0
        ≡ done reply
