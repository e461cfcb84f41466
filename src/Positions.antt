-- ===== src/Positions.antt =====
-- nfq2/conntrack_base.h: the counters and positions of a connection, and times.
use prizma.Base.{ℕ, Bool, false}

pub data State : Type 0 where
  syn : State
  established : State
  fin : State

pub record Time : Type 0 where
  pub sec : ℕ
  pub nsec : ℕ

pub record Position : Type 0 where
  pub pcounter : ℕ
  pub pdcounter : ℕ
  pub pbcounter : ℕ
  pub ip6flow : ℕ
  pub pos : ℕ
  pub uppos : ℕ
  pub uppos_prev : ℕ
  pub seq_last : ℕ
  pub seq0 : ℕ
  pub winsize : ℕ
  pub mss : ℕ
  pub winsize_calc : ℕ
  pub scale : ℕ
  pub rseq_over_2g : Bool

pub record Positions : Type 0 where
  pub t_last : Time
  pub state : State
  pub client : Position
  pub server : Position
  pub ipproto : ℕ

-- What `memset` leaves.
abbrev pub no_time : Time
no_time = record { sec = 0; nsec = 0 }

abbrev pub zero_position : Position
zero_position = record {
  pcounter = 0;
  pdcounter = 0;
  pbcounter = 0;
  ip6flow = 0;
  pos = 0;
  uppos = 0;
  uppos_prev = 0;
  seq_last = 0;
  seq0 = 0;
  winsize = 0;
  mss = 0;
  winsize_calc = 0;
  scale = 0;
  rseq_over_2g = false;
}

abbrev pub zero_positions : Positions
zero_positions = record {
  t_last = no_time;
  state = syn;
  client = zero_position;
  server = zero_position;
  ipproto = 0;
}
