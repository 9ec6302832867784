-- ===== src/Mysql/Flags.antt =====
-- LtEvToMysqlStatus and MysqlWaitStatusString (mysql_async_con.cc): the bits of a status and the flags of an event.
use ltapp.Base.{ℕ, ◌≡◌, refl, Bool, true, false, List, [], ◌∷◌, ◌++◌, String, ◌==◌}
use ltapp.Mysql.Api.{MysqlApi}
use ltapp.Mysql.Conn.{LtEvent, has_flag, or_flag, lt_ev_to_mysql_status}

abbrev bits : Bool → Bool → Bool → ℕ
bits read write error = or_flag error 4 (or_flag write 2 (or_flag read 1 0))

bits-flags :
    (r w x : Bool)
    → (◌≡◌ {A = LtEvent}
        (record {
          read = has_flag (bits r w x) 1;
          write = has_flag (bits r w x) 2;
          error = has_flag (bits r w x) 4;
        })
        (record { read = r; write = w; error = x }))
      × (has_flag (bits r w x) 8 ≡ false)
bits-flags true true true = (refl, refl)
bits-flags true true false = (refl, refl)
bits-flags true false true = (refl, refl)
bits-flags true false false = (refl, refl)
bits-flags false true true = (refl, refl)
bits-flags false true false = (refl, refl)
bits-flags false false true = (refl, refl)
bits-flags false false false = (refl, refl)

abbrev piece : Bool → String → List String
piece true text = text ∷ []
piece false text = []

-- The text of a status, for the numbers of the bits.
abbrev status_text : ℕ → ℕ → ℕ → ℕ → ℕ → List String
status_text read write timeout except status =
    piece (status == 0) "None"
    ++ (piece (has_flag status read) "READ|"
        ++ (piece (has_flag status write) "WRITE|"
            ++ (piece (has_flag status timeout) "TIMEOUT|"
                ++ piece (has_flag status except) "EXCEPT|")))

abbrev flags_text : Bool → Bool → Bool → List String
flags_text false false false = "None" ∷ []
flags_text read write error = piece read "READ|" ++ (piece write "WRITE|" ++ piece error "EXCEPT|")

status_text-bits : (r w x : Bool) → status_text 1 2 8 4 (bits r w x) ≡ flags_text r w x
status_text-bits true true true = refl
status_text-bits true true false = refl
status_text-bits true false true = refl
status_text-bits true false false = refl
status_text-bits false true true = refl
status_text-bits false true false = refl
status_text-bits false false true = refl
status_text-bits false false false = refl

module _ {M : Type 0} (api : MysqlApi M) where
  -- The bits of the status words, as mysql.h numbers them.
  pub record Flags : Type 0 where
    pub read : api.wait_read ≡ 1
    pub write : api.wait_write ≡ 2
    pub except : api.wait_except ≡ 4
    pub timeout : api.wait_timeout ≡ 8

  abbrev pub event_of : ℕ → LtEvent
  event_of status = record {
    read = has_flag status api.wait_read;
    write = has_flag status api.wait_write;
    error = has_flag status api.wait_except;
  }

  -- With the bits of mysql.h, the status that an event becomes has the event's flags, no
  -- others, and not that of a timeout.
  pub lt_ev_to_mysql_status-event_of :
      Flags
      → (e : LtEvent)
      → (event_of (lt_ev_to_mysql_status api e) ≡ e)
        × (has_flag (lt_ev_to_mysql_status api e) api.wait_timeout ≡ false)
  unfolding lt_ev_to_mysql_status
  lt_ev_to_mysql_status-event_of f e =
      rw (f.read, f.write, f.except, f.timeout) (bits-flags e.read e.write e.error)

  -- MysqlWaitStatusString: the pieces that it writes, in order.
  mysql_wait_status_string : ℕ → List String
  mysql_wait_status_string =
      status_text api.wait_read api.wait_write api.wait_timeout api.wait_except

  -- The text of an event's status names the event's flags, and is None where there are none.
  mysql_wait_status_string-event :
      Flags
      → (e : LtEvent)
      → mysql_wait_status_string (lt_ev_to_mysql_status api e) ≡ flags_text e.read e.write e.error
  unfolding mysql_wait_status_string lt_ev_to_mysql_status
  mysql_wait_status_string-event f e =
      rw (f.read, f.write, f.except, f.timeout) (status_text-bits e.read e.write e.error)
