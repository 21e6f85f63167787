-- ===== src/Sp.antt =====
-- utils/sp.h and utils/sp.c: the protocol between the clients of a measurement and their server. A message
-- is its fields. The union of its data is a field for each use, of which `sp_type` says which is meant. How a C
-- structure lies in memory is a parameter, but for the first twelve bytes.
pub mod Address
pub mod Message
pub mod Assembly
mod Tests
use sphone.Prelude.{
  ℕ, suc, ◌+◌, ◌*◌, ◌^◌, Bool, true, false, ◌&&◌, ◌==◌, if◌then◌else◌, Option, none, some, List, [],
  ◌∷◌,
}
use sphone.Prelude.Int.{pos}
use sphone.Prelude.Memory.{Block}
use sphone.TimeVal.{TimeVal}

-- `enum sp_type`, and the numbers that are none of it
pub data SpType : Type 0 where
  register deregister start_send start_rcv report_send report_rcv exit unknown : SpType

-- `struct sockaddr_in`, without its padding; the port and the address as the network has them
pub record SockaddrIn : Type 0 where
  pub sin_family : ℕ
  pub sin_port : ℕ
  pub s_addr : ℕ

-- `struct sdhdr_start`
pub record StartHdr : Type 0 where
  pub ss_testid : ℕ
  pub ss_clientid_src : ℕ
  pub ss_clientid_dst : ℕ
  pub ss_addr_src_pub : SockaddrIn
  pub ss_addr_dst_pub : SockaddrIn
  pub ss_time_start : TimeVal
  pub ss_time_duration : TimeVal

-- `struct sdhdr_register`
pub record RegisterHdr : Type 0 where
  pub sr_addr_pub : SockaddrIn
  pub sr_busy : ℕ

-- `struct sp_proto`, without `sp_magic` and `sp_version`, which a message that is taken has right
pub record SpProto : Type 0 where
  pub sp_type : SpType
  pub sp_len : ℕ
  pub sp_id : ℕ
  pub sp_starthdr : StartHdr
  pub sp_reghdr : RegisterHdr

abbrev pub sp_magic : ℕ
sp_magic = 0xa8

abbrev pub sp_version_nr : ℕ
sp_version_nr = 12

abbrev pub sp_buflen : ℕ
sp_buflen = 64

abbrev pub sp_timeout_reg_nr : ℕ
sp_timeout_reg_nr = 10

abbrev pub spc_init_interval : ℕ
spc_init_interval = 20

abbrev pub spc_server_interval : ℕ
spc_server_interval = 120

-- After a `memset`
abbrev pub no_addr : SockaddrIn
no_addr = record { sin_family = 0; sin_port = 0; s_addr = 0 }

abbrev pub no_time : TimeVal
no_time = record { tv_sec = pos 0; tv_usec = pos 0 }

abbrev pub no_start : StartHdr
no_start = record {
  ss_testid = 0;
  ss_clientid_src = 0;
  ss_clientid_dst = 0;
  ss_addr_src_pub = no_addr;
  ss_addr_dst_pub = no_addr;
  ss_time_start = no_time;
  ss_time_duration = no_time;
}

abbrev pub no_register : RegisterHdr
no_register = record { sr_addr_pub = no_addr; sr_busy = 0 }

-- What `memcmp` and SOCKADDR_IN_EQ compare
abbrev pub same_addr : SockaddrIn → SockaddrIn → Bool
same_addr a b = a.sin_family == b.sin_family && a.sin_port == b.sin_port && (a.s_addr == b.s_addr)

-- A message's type by its number
unfoldable pub sp_type_of : ℕ → SpType
sp_type_of n =
    if n == 0
    then register
    else (if n == 1
        then deregister
        else (if n == 2
            then start_send
            else (if n == 3
                then start_rcv
                else (if n == 4
                    then report_send
                    else (if n == 5 then report_rcv else (if n == 6 then exit else unknown))))))
