-- ===== src/JsonRpc/RoundTrip/Plain.antt =====
-- The cast of the data of errors in `_exec_batch` of ipapp/rpc/jsonrpc/main.py, for data that is fit for JSON already.
use ipapp.Common.{◌≡◌, refl, ap, ◌∙◌, Option, none, some}
use ipapp.Common.Exec.{Result, ok, err}
use ipapp.Rpc.{Exc}
use ipapp.JsonRpc.{
  Value, Raised, raised, Request, Protocol, Server, cast2dump, respond_to, respond_cast,
}
use ipapp.JsonRpc.Dump.{IsPlainInfo, cast2dump-plain}
use ipapp.JsonRpc.Replies.{dumped, dumped_with}
use ipapp.JsonRpc.Client.{ClientProtocol}
use ipapp.JsonRpc.RoundTrip.{Understands, IsFit, IsFitCast}

module _ {Msg Resp : Type 0} {p : Protocol Resp} {proto : ClientProtocol Msg Resp}
    (lib : Understands p proto) (srv : Server) where
  dumped-error :
      (r : Request) (e : Raised)
      → IsPlainInfo (lib.info_of e)
      → dumped p srv (p.error_respond r e) ≡ p.error_respond r e
  dumped-error r e plain =
      ap (dumped_with p srv (p.error_respond r e)) (lib.own_data r e)
      ∙ by_info (lib.info_of e) plain (lib.own_data r e)
    where
      by_info :
          (info : Option Value)
          → IsPlainInfo info
          → p.data_of (p.error_respond r e) ≡ info
          → dumped_with p srv (p.error_respond r e) info ≡ p.error_respond r e
      by_info none fit own = refl
      by_info (some v) fit own =
          rw (dumped_with, cast2dump-plain v fit) (lib.same_data (p.error_respond r e) v own)

  dumped-cast :
      (r : Request) (c : Result Exc Value)
      → IsFitCast lib c
      → dumped p srv (respond_cast p r c) ≡ respond_cast p r c
  dumped-cast r (ok w) fit = ap (dumped_with p srv (p.respond r w)) (lib.no_data r w)
  dumped-cast r (err e) fit = dumped-error r (raised e) fit

  -- Dumping data that is fit for JSON changes nothing.
  pub dumped-respond_to :
      (r : Request) (x : Result Raised Value)
      → IsFit lib x
      → dumped p srv (respond_to p r x) ≡ respond_to p r x
  dumped-respond_to r (ok v) fit = dumped-cast r (cast2dump v) fit
  dumped-respond_to r (err e) fit = dumped-error r e fit
