-- ===== src/Mysql/Client/Sound.antt =====
-- A client (mysql_client_impl.h) whose connections are all in their loops, and what keeps it so.
use ltapp.Base.{
  ℕ, zero, suc, ◌<◌, ◌≤◌, ◌+◌, ◌≡◌, refl, sym, ap, subst, true, Option, none, some, List, [], ◌∷◌,
  ◌++◌, arith, length, get_elem?, is_some,
}
use ltapp.Base.Count.{set_elem, take_at}
use ltapp.Mysql.Store.{Store}
use ltapp.Mysql.Conn.{Conn, LtEvent}
use ltapp.Mysql.Safety.{Inv}
use ltapp.Mysql.History.{event, times_out}
use ltapp.Mysql.Client.{
  Client, Task, query_done, start_query_on, sync_close_on, close, close_tasks, next_index, Passes,
  on, back,
}
use ltapp.Mysql.Client.Work.{Event, submits, runs, calls, closes_client, put_back}

module _ {M : Type 0} where
  abbrev pub AllInv : List (Conn M) → Type 0
  AllInv [] = Unit {0}
  AllInv (c ∷ cs) = Inv c × AllInv cs

  pub AllInv-get :
      (cs : List (Conn M)) (i : ℕ) (c : Conn M) → AllInv cs → get_elem? cs i ≡ some c → Inv c
  AllInv-get [] i c v e = cc
  AllInv-get (x ∷ cs) zero c v e = subst Held e v.0
    where
      Held : Option (Conn M) → Type 0
      Held none = Unit {0}
      Held (some d) = Inv d
  AllInv-get (x ∷ cs) (suc i) c v e = AllInv-get cs i c v.1 e

  AllInv-set :
      (cs : List (Conn M)) (i : ℕ) (c : Conn M) → AllInv cs → Inv c → AllInv (set_elem cs i c)
  AllInv-set [] i c v w = tt
  AllInv-set (x ∷ cs) zero c v w = (w, v.1)
  AllInv-set (x ∷ cs) (suc i) c v w = (v.0, AllInv-set cs i c v.1 w)

  pub AllInv-append : (cs ds : List (Conn M)) → AllInv cs → AllInv ds → AllInv (cs ++ ds)
  AllInv-append [] ds v w = w
  AllInv-append (x ∷ cs) ds v w = (v.0, AllInv-append cs ds v.1 w)

  pub length-set_elem :
      (cs : List (Conn M)) (i : ℕ) (c : Conn M) → length (set_elem cs i c) ≡ length cs
  length-set_elem [] i c = refl
  length-set_elem (x ∷ cs) zero c = refl
  length-set_elem (x ∷ cs) (suc i) c = ap suc (length-set_elem cs i c)

-- A task for one of `n` connections.
abbrev pub For : ℕ → Task → Type 0
For n (query_done q) = Unit {0}
For n (start_query_on i q) = i < n
For n (sync_close_on i) = i < n

abbrev pub AllFor : ℕ → List Task → Type 0
AllFor n [] = Unit {0}
AllFor n (t ∷ ts) = For n t × AllFor n ts

AllFor-append : (n : ℕ) (ts us : List Task) → AllFor n ts → AllFor n us → AllFor n (ts ++ us)
AllFor-append n [] us v w = w
AllFor-append n (t ∷ ts) us v w = (v.0, AllFor-append n ts us v.1 w)

AllFor-close_tasks :
    {M : Type 0} (n i : ℕ) (cs : List (Conn M)) → i + length cs ≤ n → AllFor n (close_tasks i cs)
unfolding close_tasks
AllFor-close_tasks n i [] l = tt
AllFor-close_tasks n i (_ ∷ cs) l = (omega arith, AllFor-close_tasks n (i + 1) cs (omega arith))

abbrev pub TakenFor : ℕ → Option (Task × List Task) → Type 0
TakenFor n none = Unit {0}
TakenFor n (some (t, rest)) = For n t × AllFor n rest

pub take_at-AllFor : (n : ℕ) (ts : List Task) (j : ℕ) → AllFor n ts → TakenFor n (take_at ts j)
take_at-AllFor n [] j v = tt
take_at-AllFor n (t ∷ ts) zero v = v
take_at-AllFor n (t ∷ ts) (suc j) v = later (take_at ts j) (take_at-AllFor n ts j v.1)
  where
    later :
        (o : Option (Task × List Task))
        → TakenFor n o
        → TakenFor n (elim o [ none ↦ none | some (u, rest) ↦ some (u, t ∷ rest) ])
    later none h = tt
    later (some (u, rest)) h = (h.0, (v.0, h.1))

-- A client with a connection at least, all of them in their loops.
pub record Sound {M : Type 0} (k : Client M) : Type 0 where
  pub connections : AllInv k.connections
  pub tasks : AllFor (length k.connections) k.tasks
  pub has_one : 0 < length k.connections

module _ {M : Type 0} where
  -- What may happen to a client: an event, or a timer, comes only where it is
  -- installed.
  pub data Comes (k : Client M) : Event → Type 0 where
    query : (q : ℕ) → Comes k (submits q)
    task : (j : ℕ) → Comes k (runs j)
    closing : Comes k closes_client
    io :
        (i : ℕ) (c : Conn M) (e : LtEvent)
        → get_elem? k.connections i ≡ some c
        → is_some c.fd_event ≡ true
        → Comes k (calls i (event e))
    timer :
        (i : ℕ) (c : Conn M)
        → get_elem? k.connections i ≡ some c
        → is_some c.fd_event ≡ true
        → Comes k (calls i times_out)

  pub on_store : (c : Conn M) (s : Store) → Inv c → Inv (record c { store = s })
  on_store c s v = record {
    fits = record {
      in_loop = v.fits.in_loop;
      timer = v.fits.timer;
      busy = v.fits.busy;
      fetched = v.fits.fetched;
      live = v.fits.live;
    };
    installed = v.installed;
  }

  pub put_back-Sound :
      (i : ℕ) (c : Conn M) (k : Client M) → Sound k → Inv c → Sound (put_back i c k)
  unfolding put_back
  put_back-Sound i c k v w = record {
    connections = AllInv-set k.connections i c v.connections w;
    tasks = subst (λ n. AllFor n k.tasks) (sym (length-set_elem k.connections i c)) v.tasks;
    has_one = subst (λ n. 0 < n) (sym (length-set_elem k.connections i c)) v.has_one;
  }

  posts-Sound :
      (t : Task) (k k' : Client M)
      → k'.connections ≡ k.connections
      → k'.tasks ≡ k.tasks ++ t ∷ []
      → For (length k.connections) t
      → Sound k
      → Sound k'
  posts-Sound t k k' c e f v = record {
    connections = subst AllInv (sym c) v.connections;
    tasks =
        subst (λ cs. AllFor (length cs) k'.tasks) (sym c)
          (subst (AllFor (length k.connections)) (sym e)
            (AllFor-append (length k.connections) k.tasks (t ∷ []) v.tasks (f, tt)));
    has_one = subst (λ cs. 0 < length cs) (sym c) v.has_one;
  }

  pub Passes-Sound :
      (q : ℕ) (k k' : Client M) (con : Conn M) → Sound k → Passes true q k k' con → Sound k'
  Passes-Sound q k k' con v (on r e) =
      posts-Sound (start_query_on (next_index k) q) k k' (ap (λ x. x.connections) e)
        (ap (λ x. x.tasks) e) (index-below k v.has_one) v
    where
      index-below : (k : Client M) → 0 < length k.connections → next_index k < length k.connections
      index-below k h = unfold next_index in omega arith
  Passes-Sound q k k' con v (back r l t c u s f) = posts-Sound (query_done q) k k' c t tt v

  -- Close posts a task for each connection.
  pub close-Sound : (k : Client M) → Sound k → Sound (close k)
  unfolding close
  close-Sound k v = record {
    connections = v.connections;
    tasks =
        AllFor-append (length k.connections) k.tasks (close_tasks 0 k.connections) v.tasks
          (AllFor-close_tasks (length k.connections) 0 k.connections (omega arith));
    has_one = v.has_one;
  }
