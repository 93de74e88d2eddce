-- ===== src/Proxy.antt =====
-- server/proxy/base.go: the checks before a connection is served, and the flow that is counted.
pub mod Admission
pub mod Deal
pub mod Http
pub mod P2p
use nps_socks.File.Conns.{get_conn, get_conn_port}
use nps_socks.Prelude.{
  text_eq, int_eq, ℤ, wrap64, Bool, Option, Text, ◌+ℤ◌, ltb_ℤ, if◌then◌else◌, pos, some, not, ◌&&◌,
  none, ◌==◌, scale, [],
}
use nps_socks.File.Obj.{Client, Flow, PortConfig}

-- `Add` of lib/file/obj.go, and `FlowAdd` and `FlowAddHost`, which take the sums the other way round
unfoldable pub flow_add : ℤ → ℤ → Flow → Flow
flow_add inlet export s = record s {
  inlet_flow = wrap64 (s.inlet_flow +ℤ inlet);
  export_flow = wrap64 (s.export_flow +ℤ export);
}

pub data Denied : Type 0 where
  port_expired traffic_exceeded connections_exceeded : Denied

-- `limit > 0 && limit << 20 < ExportFlow + InletFlow`
abbrev pub exceeds : ℤ → Flow → Bool
exceeds limit flow =
    ltb_ℤ (pos 0) limit
    && ltb_ℤ (wrap64 (scale 1048576 limit)) (wrap64 (flow.export_flow +ℤ flow.inlet_flow))

-- `flow` is the flow of the client. `none` is that the connection may be served.
unfoldable pub check_flow_and_conn_num : Flow → Client → Client × Option Denied
unfolding get_conn
check_flow_and_conn_num flow client =
    let (client', ok) = get_conn client in
    if exceeds flow.flow_limit flow
    then (client, some traffic_exceeded)
    else if ok
    then (client', none)
    else (client', some connections_exceeded)

-- `is_expired` is IsExpired at the time of the call.
unfoldable pub check_flow_and_conn_num_by_port :
    (Text → Bool) → PortConfig → Flow → PortConfig × Option Denied
unfolding get_conn_port
check_flow_and_conn_num_by_port is_expired port_config flow =
    let (port_config', ok) = get_conn_port port_config in
    if not (port_config.expire_time == []) && is_expired port_config.expire_time
    then (port_config, some port_expired)
    else if exceeds port_config.flow_limit flow
    then (port_config, some traffic_exceeded)
    else if ok
    then (port_config', none)
    else (port_config', some connections_exceeded)
