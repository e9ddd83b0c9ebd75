-- ===== src/L2/Stats.antt =====
-- `L2Stats_t` of include/network/L2_udp_recver_th.h: the counters, which are uint64_t, and how a
-- message of each kind is counted.
use s4_lib_lite.Prelude.{ℕ, ◌+◌, ◌%◌, ◌^◌, [], ◌∷◌, ◌++◌, Bytes, codes, String}
use s4_lib_lite.Prelude.Decimal.{print}

pub record Stats : Type 0 where
  pub recv_frame_cnt : ℕ
  pub recv_heartbeat_cnt : ℕ
  pub recv_instrument_snap_cnt : ℕ
  pub recv_index_snap_cnt : ℕ
  pub recv_fund_snap_cnt : ℕ
  pub recv_option_snap_cnt : ℕ
  pub recv_order_cnt : ℕ
  pub recv_exec_cnt : ℕ
  pub recv_instrument_snapx5_cnt : ℕ
  pub recv_fund_snapx5_cnt : ℕ
  pub recv_index_snapx5_cnt : ℕ
  pub recv_option_snapx5_cnt : ℕ
  pub recv_unknown_cnt : ℕ
  pub last_frame_time_ms : ℕ
  pub live_code_nb : ℕ
  pub live_instrument_snap_cnt : ℕ
  pub live_index_snap_cnt : ℕ
  pub live_fund_snap_cnt : ℕ
  pub live_option_snap_cnt : ℕ
  pub live_order_cnt : ℕ
  pub live_exec_cnt : ℕ
  pub live_instrument_snapx5_cnt : ℕ
  pub live_fund_snapx5_cnt : ℕ
  pub live_index_snapx5_cnt : ℕ
  pub live_option_snapx5_cnt : ℕ

-- `memset(&_stats, 0, sizeof(_stats))`
abbrev pub no_stats : Stats
no_stats = record {
  recv_frame_cnt = 0;
  recv_heartbeat_cnt = 0;
  recv_instrument_snap_cnt = 0;
  recv_index_snap_cnt = 0;
  recv_fund_snap_cnt = 0;
  recv_option_snap_cnt = 0;
  recv_order_cnt = 0;
  recv_exec_cnt = 0;
  recv_instrument_snapx5_cnt = 0;
  recv_fund_snapx5_cnt = 0;
  recv_index_snapx5_cnt = 0;
  recv_option_snapx5_cnt = 0;
  recv_unknown_cnt = 0;
  last_frame_time_ms = 0;
  live_code_nb = 0;
  live_instrument_snap_cnt = 0;
  live_index_snap_cnt = 0;
  live_fund_snap_cnt = 0;
  live_option_snap_cnt = 0;
  live_order_cnt = 0;
  live_exec_cnt = 0;
  live_instrument_snapx5_cnt = 0;
  live_fund_snapx5_cnt = 0;
  live_index_snapx5_cnt = 0;
  live_option_snapx5_cnt = 0;
}

-- The cases of the switch of `recv_thread`.
pub data Kind : Type 0 where
  instrument_snap index_snap option_snap fund_snap order execution : Kind
  instrument_snapx5 fund_snapx5 index_snapx5 option_snapx5 heartbeat : Kind

-- A counter after `n` more, in 64 bits.
abbrev pub add64 : ℕ → ℕ → ℕ
add64 x n = (x + n) % 2 ^ 64

-- `_stats.recv_…_cnt++` of each case.
unfoldable pub count_recv : Kind → Stats → Stats
count_recv instrument_snap s = record s {
  recv_instrument_snap_cnt = add64 s.recv_instrument_snap_cnt 1;
}
count_recv index_snap s = record s { recv_index_snap_cnt = add64 s.recv_index_snap_cnt 1 }
count_recv option_snap s = record s { recv_option_snap_cnt = add64 s.recv_option_snap_cnt 1 }
count_recv fund_snap s = record s { recv_fund_snap_cnt = add64 s.recv_fund_snap_cnt 1 }
count_recv order s = record s { recv_order_cnt = add64 s.recv_order_cnt 1 }
count_recv execution s = record s { recv_exec_cnt = add64 s.recv_exec_cnt 1 }
count_recv instrument_snapx5 s = record s {
  recv_instrument_snapx5_cnt = add64 s.recv_instrument_snapx5_cnt 1;
}
count_recv fund_snapx5 s = record s { recv_fund_snapx5_cnt = add64 s.recv_fund_snapx5_cnt 1 }
count_recv index_snapx5 s = record s { recv_index_snapx5_cnt = add64 s.recv_index_snapx5_cnt 1 }
count_recv option_snapx5 s = record s { recv_option_snapx5_cnt = add64 s.recv_option_snapx5_cnt 1 }
count_recv heartbeat s = record s { recv_heartbeat_cnt = add64 s.recv_heartbeat_cnt 1 }

-- `_stats.live_…_cnt += liveTrans(…)` of each case; a heartbeat has no such line.
unfoldable pub count_live : Kind → ℕ → Stats → Stats
count_live instrument_snap n s = record s {
  live_instrument_snap_cnt = add64 s.live_instrument_snap_cnt n;
}
count_live index_snap n s = record s { live_index_snap_cnt = add64 s.live_index_snap_cnt n }
count_live option_snap n s = record s { live_option_snap_cnt = add64 s.live_option_snap_cnt n }
count_live fund_snap n s = record s { live_fund_snap_cnt = add64 s.live_fund_snap_cnt n }
count_live order n s = record s { live_order_cnt = add64 s.live_order_cnt n }
count_live execution n s = record s { live_exec_cnt = add64 s.live_exec_cnt n }
count_live instrument_snapx5 n s = record s {
  live_instrument_snapx5_cnt = add64 s.live_instrument_snapx5_cnt n;
}
count_live fund_snapx5 n s = record s { live_fund_snapx5_cnt = add64 s.live_fund_snapx5_cnt n }
count_live index_snapx5 n s = record s { live_index_snapx5_cnt = add64 s.live_index_snapx5_cnt n }
count_live option_snapx5 n s = record s {
  live_option_snapx5_cnt = add64 s.live_option_snapx5_cnt n;
}
count_live heartbeat n s = s

unfoldable pub count_unknown : Stats → Stats
count_unknown s = record s { recv_unknown_cnt = add64 s.recv_unknown_cnt 1 }

abbrev pub line : String → ℕ → Bytes
line name n = codes name ++ (codes " = " ++ (print n ++ (10 ∷ [])))

-- `L2Stats_t::toString`
unfoldable pub to_string : Stats → Bytes
to_string s =
    line "recv_frame_cnt" s.recv_frame_cnt
    ++ (line "recv_heartbeat_cnt" s.recv_heartbeat_cnt
        ++ (line "recv_instrument_snap_cnt" s.recv_instrument_snap_cnt
            ++ (line "recv_index_snap_cnt" s.recv_index_snap_cnt
                ++ (line "recv_option_snap_cnt" s.recv_option_snap_cnt
                    ++ (line "recv_fund_snap_cnt" s.recv_fund_snap_cnt
                        ++ (line "recv_order_cnt" s.recv_order_cnt
                            ++ (line "recv_exec_cnt" s.recv_exec_cnt
                                ++ (line "recv_instrument_snapx5_cnt" s.recv_instrument_snapx5_cnt
                                    ++ (line "recv_fund_snapx5_cnt" s.recv_fund_snapx5_cnt
                                        ++ (line "recv_index_snapx5_cnt" s.recv_index_snapx5_cnt
                                            ++ (line "recv_option_snapx5_cnt"
                                                  s.recv_option_snapx5_cnt
                                                ++ (line "recv_unknown_cnt" s.recv_unknown_cnt
                                                    ++ (line "last_frame_time_ms"
                                                          s.last_frame_time_ms
                                                        ++ (line "live_code_nb" s.live_code_nb
                                                            ++ (line "live_instrument_snap_cnt"
                                                            s.live_instrument_snap_cnt
                                                            ++ (line "live_index_snap_cnt"
                                                            s.live_index_snap_cnt
                                                            ++ (line "live_option_snap_cnt"
                                                            s.live_option_snap_cnt
                                                            ++ (line "live_fund_snap_cnt"
                                                            s.live_fund_snap_cnt
                                                            ++ (line "live_order_cnt"
                                                            s.live_order_cnt
                                                            ++ (line "live_exec_cnt" s.live_exec_cnt
                                                            ++ (line "live_instrument_snapx5_cnt"
                                                            s.live_instrument_snapx5_cnt
                                                            ++ (line "live_fund_snapx5_cnt"
                                                            s.live_fund_snapx5_cnt
                                                            ++ (line "live_index_snapx5_cnt"
                                                            s.live_index_snapx5_cnt
                                                            ++ line "live_option_snapx5_cnt"
                                                            s.live_option_snapx5_cnt)))))))))))))))))))))))
