-- ===== src/Codec/Broken.antt =====
-- What the body decoder makes of each way that the values of a body are read.
use mesher.Prelude.{
  ℕ, ◌≡◌, refl, subst, List, [], ◌∷◌, Option, none, some, true, false, arith, length, if◌then◌else◌,
  if-cases,
}
use mesher.Prelude.Int.{ℤ, pos}
use mesher.Prelude.Text.{Text, Table, is_empty}
use mesher.Prelude.Go.{Go, ret, panic, ◌>>=◌, >>=-cases}
use mesher.Wire.Object.{Object, nil, text}
use mesher.Wire.Hessian.{Hessian}
use mesher.Wire.ReadBuffer.{ReadBuffer, read_object, read_map, read_string}
use mesher.Message.{Argument, Request, is_heartbeat}
use mesher.TypeUtil.{type_des_to_args}
use mesher.Codec.Reads.{
  Values, Texts, no_text, next_text, Stops, ValuesRead, read_arguments-Read, no_value,
}
use mesher.Codec.Decode.{
  failure, decode_req_body, decode_req_event, decode_req_front, decode_req_arguments, broken,
  accepted, decode_req_rest, decode_req_attachments, read_arguments,
}

-- What a decoder of bodies leaves alone: what the header said.
pub record SameHead (req r : Request) : Type 0 where
  pub id : r.msg_id ≡ req.msg_id
  pub reply : r.two_way ≡ req.two_way
  pub event : r.event ≡ req.event
  pub status : r.status ≡ req.status

-- A broken request that holds the message.
pub record IsRefused (req : Request) (msg : Text) (r : Request) : Type 0 where
  pub head : SameHead req r
  pub is_broken : r.is_broken ≡ true
  pub holds : r.payload ≡ text msg

module _ (h : Hessian) (find_all : Text → List Text) where
  -- One value for each argument of the type descriptor, and none for an empty one.
  pub record AsDescribed (desc : Text) (n : ℕ) : Type 0 where
    pub args : List Argument
    pub described : type_des_to_args find_all desc ≡ ret args
    pub count : n ≡ (if is_empty desc then 0 else length args)

  -- The texts at the front of a call, the method and the type descriptor last.
  pub record Front (b : ReadBuffer) (method desc : Text) (b' : ReadBuffer) : Type 0 where
    pub protocol_version : Text
    pub path : Text
    pub version : Text
    pub texts : Texts h b (protocol_version ∷ path ∷ version ∷ method ∷ desc ∷ []) b'

  -- The front of a call and its arguments, read without an error.
  pub record Arguments (b : ReadBuffer) (method : Text) (b' : ReadBuffer) : Type 0 where
    pub desc : Text
    pub at : ReadBuffer
    pub front : Front b method desc at
    pub objects : List Object
    pub values : Values h at objects b'
    pub described : AsDescribed desc (length objects)

  -- The result of the decoder by what is read: the int, the request and the buffer.
  pub data Decoded (req : Request) (b : ReadBuffer) : ℤ → Request → ReadBuffer → Type 0 where
    event_refused :
        {r : Request} {b' : ReadBuffer} (o : Object) (msg : Text)
        → req.event ≡ true
        → read_object h b ≡ ret (o, some msg, b')
        → IsRefused req msg r
        → Decoded req b failure r b'
    event_done :
        {b' : ReadBuffer} (o : Object)
        → req.event ≡ true
        → read_object h b ≡ ret (o, none, b')
        → Decoded req b (pos 0) req b'
    argument_refused :
        {r : Request} {at b' : ReadBuffer} (method desc msg : Text)
        → req.event ≡ false
        → Front b method desc at
        → Stops h at msg b'
        → IsRefused req msg r
        → Decoded req b failure r b'
    attachments_refused :
        {r : Request} {at b' : ReadBuffer} (method msg : Text) (m : Table Text)
        → req.event ≡ false
        → Arguments b method at
        → read_map h at ≡ ret (m, some msg, b')
        → IsRefused req msg r
        → Decoded req b failure r b'
    call_done :
        {r : Request} {at b' : ReadBuffer} (method : Text) (m : Table Text)
        → req.event ≡ false
        → Arguments b method at
        → read_map h at ≡ ret (m, none, b')
        → SameHead req r
        → r.is_broken ≡ false
        → r.payload ≡ nil
        → r.method_name ≡ method
        → r.attachments ≡ some m
        → Decoded req b (pos 0) r b'

  broken-IsRefused :
      (req r : Request) (msg : Text) → SameHead req r → IsRefused req msg (broken r msg)
  broken-IsRefused req r msg s = record {
    head = record { id = s.id; reply = s.reply; event = s.event; status = s.status };
    is_broken = refl;
    holds = refl;
  }

  SameHead-refl : (req : Request) → SameHead req req
  SameHead-refl req = record { id = refl; reply = refl; event = refl; status = refl }

  -- A run that does not panic ends as `Decoded` says.
  abbrev Ensures : Request → ReadBuffer → Go (ℤ × Request × ReadBuffer) → Type 0
  Ensures req b (ret (c, r, b')) = Decoded req b c r b'
  Ensures req b panic = Unit {0}

  event-Ensures :
      (req : Request) (b : ReadBuffer) → req.event ≡ true → Ensures req b (decode_req_event h req b)
  unfolding decode_req_event
  event-Ensures req b ev = >>=-cases (Ensures req b) (read_object h b) _ tt λ (o, err, b1) e.
      elim err
          as (λ err.
            read_object h b ≡ ret (o, err, b1)
            → Ensures req b (elim err [
              | some msg ↦ ret (failure, broken req msg, b1)
              | none ↦ ret (pos 0, req, b1)
            ])) [
              | some msg ↦
                  λ e. event_refused o msg ev e (broken-IsRefused req req msg (SameHead-refl req))
              | none ↦ λ e. event_done o ev e
            ]
        e

  attachments-Ensures :
      (req0 req : Request) (b at : ReadBuffer) (method : Text)
      → SameHead req0 req
      → req.method_name ≡ method
      → req0.event ≡ false
      → Arguments b method at
      → Ensures req0 b (decode_req_attachments h req at)
  unfolding decode_req_attachments
  attachments-Ensures req0 req b at method s n ev a =
      >>=-cases (Ensures req0 b) (read_map h at) _ tt λ (m, err, b1) e.
        elim err
            as (λ err.
              read_map h at ≡ ret (m, err, b1)
              → Ensures req0 b (elim err [
                | some msg ↦ ret (failure, broken req msg, b1)
                | none ↦ ret (pos 0, accepted req m, b1)
              ])) [
                | some msg ↦
                    λ e. attachments_refused method msg m ev a e (broken-IsRefused req0 req msg s)
                | none ↦ λ e.
                    call_done {r = accepted req m} method m ev a e
                      (record { id = s.id; reply = s.reply; event = s.event; status = s.status })
                      refl refl n refl
              ]
          e

  abbrev ArgumentsEnsures :
      Request → ReadBuffer → Text → Go (Option Text × Request × ReadBuffer) → Type 0
  ArgumentsEnsures req0 b method (ret (none, r, at)) =
      Arguments b method at × SameHead req0 r × (r.method_name ≡ method)
  ArgumentsEnsures req0 b method (ret (some msg, r, b')) =
      (desc : Text) × (at : ReadBuffer) × Front b method desc at
      × Stops h at msg b'
      × SameHead req0 r
  ArgumentsEnsures req0 b method panic = Unit {0}

  filled-Ensures :
      (req0 req : Request) (b at : ReadBuffer) (method desc : Text) (args0 : List Argument)
      (g : Go (Option Text × List Argument × ReadBuffer))
      → SameHead req0 req
      → req.method_name ≡ method
      → Front b method desc at
      → type_des_to_args find_all desc ≡ ret args0
      → is_empty desc ≡ false
      → ValuesRead h (length args0) at g
      → ArgumentsEnsures req0 b method (
          g >>= λ (err, args, b'). elim err [
            | some msg ↦ ret (some msg, req, b')
            | none ↦
                ret
                  (none, record req { invocation = record req.invocation { arguments = args } }, b')
          ])
  filled-Ensures req0 req b at method desc args0 (ret (none, args, b')) s n f d full (os, l, v) = (
    record {
      desc = desc;
      at = at;
      front = f;
      objects = os;
      values = v;
      described = record { args = args0; described = d; count = rw full l };
    },
    record { id = s.id; reply = s.reply; event = s.event; status = s.status },
    n,
  )
  filled-Ensures req0 req b at method desc args0 (ret (some msg, args, b')) s n f d full v =
      (desc, at, f, v, s)
  filled-Ensures req0 req b at method desc args0 panic s n f d full v = tt

  arguments-Ensures :
      (req0 req : Request) (b b1 : ReadBuffer) (method : Text)
      → SameHead req0 req
      → req.method_name ≡ method
      → ((desc : Text) (at : ReadBuffer)
          → read_string h b1 ≡ ret (desc, at)
          → Front b method desc at)
      → ArgumentsEnsures req0 b method (decode_req_arguments h find_all false req b1)
  unfolding decode_req_arguments
  arguments-Ensures req0 req b b1 method s n front =
      >>=-cases (ArgumentsEnsures req0 b method) (read_string h b1) _ tt λ (desc, at) e.
        >>=-cases (ArgumentsEnsures req0 b method) (type_des_to_args find_all desc) _ tt λ args0 d.
          if-cases (ArgumentsEnsures req0 b method) (is_empty desc) _ _
            (λ empty. (
              record {
                desc = desc;
                at = at;
                front = front desc at e;
                objects = [];
                values = no_value;
                described = record { args = args0; described = d; count = rw empty refl };
              },
              s,
              n,
            ))
            λ full.
              filled-Ensures req0 req b at method desc args0
                (read_arguments h (length args0) 0 args0 at) s n (front desc at e) d full
                (read_arguments-Read h (length args0) 0 args0 at)

  ended-Ensures :
      (req0 : Request) (b : ReadBuffer) (method : Text)
      (g : Go (Option Text × Request × ReadBuffer))
      → req0.event ≡ false
      → ArgumentsEnsures req0 b method g
      → Ensures req0 b (
          g >>= λ (err, req, at). elim err [
            | some msg ↦ ret (failure, broken req msg, at)
            | none ↦ decode_req_attachments h req at
          ])
  ended-Ensures req0 b method (ret (none, r, at)) ev (a, s, n) =
      attachments-Ensures req0 r b at method s n ev a
  ended-Ensures req0 b method (ret (some msg, r, b')) ev (desc, at, f, stops, s) =
      argument_refused method desc msg ev f stops (broken-IsRefused req0 r msg s)
  ended-Ensures req0 b method panic ev a = tt

  abbrev FrontRead : Request → ReadBuffer → Go (Request × ReadBuffer) → Type 0
  FrontRead req b (ret (r, b1)) =
      SameHead req r
      × ((desc : Text) (at : ReadBuffer)
          → read_string h b1 ≡ ret (desc, at)
          → Front b r.method_name desc at)
  FrontRead req b panic = Unit {0}

  front-Read : (req : Request) (b : ReadBuffer) → FrontRead req b (decode_req_front h req b)
  unfolding decode_req_front
  front-Read req b = >>=-cases (FrontRead req b) (read_string h b) _ tt λ (s1, b1) e1.
      >>=-cases (FrontRead req b) (read_string h b1) _ tt λ (s2, b2) e2.
        >>=-cases (FrontRead req b) (read_string h b2) _ tt λ (s3, b3) e3.
          >>=-cases (FrontRead req b) (read_string h b3) _ tt λ (s4, b4) e4. (
            record { id = refl; reply = refl; event = refl; status = refl },
            λ desc at e5. record {
              protocol_version = s1;
              path = s2;
              version = s3;
              texts =
                  next_text e1 (next_text e2 (next_text e3 (next_text e4 (next_text e5 no_text))));
            },
          )

  rest-Ensures :
      (req0 req : Request) (b b1 : ReadBuffer)
      → req0.event ≡ false
      → FrontRead req0 b (ret (req, b1))
      → Ensures req0 b (decode_req_rest h find_all req b1)
  unfolding decode_req_rest
  rest-Ensures req0 req b b1 ev (s, front) =
      ended-Ensures req0 b req.method_name (decode_req_arguments h find_all false req b1) ev
        (arguments-Ensures req0 req b b1 req.method_name s refl front)

  call-Ensures :
      (req : Request) (b : ReadBuffer)
      → req.event ≡ false
      → Ensures req b (decode_req_front h req b >>= λ (req, b1). decode_req_rest h find_all req b1)
  call-Ensures req b ev =
      >>=-cases (Ensures req b) (decode_req_front h req b) _ tt
        λ (r, b1) e. rest-Ensures req r b b1 ev (subst (FrontRead req b) e (front-Read req b))

  body-Ensures : (req : Request) (b : ReadBuffer) → Ensures req b (decode_req_body h find_all req b)
  unfolding decode_req_body is_heartbeat
  body-Ensures req b =
      if-cases (Ensures req b) (is_heartbeat req) _ _ (λ e. event-Ensures req b (ground arith))
        λ _.
          if-cases (Ensures req b) req.event _ _ (λ e. event-Ensures req b e)
            λ call. call-Ensures req b call

  -- Each run of the body decoder that does not panic ends in one of five ways. For an event one object
  -- is read: with an error the result is -1 and the request is broken and holds the message of this
  -- error, else it is 0 and the request stays as it was. For a call five texts are read, then one object
  -- for each argument of the type descriptor, and then a map: at the first error of an object, or an
  -- error of the map, the result is -1 and the request is broken and holds the message of that error; if
  -- there is none it is 0, and the request is not broken, has no data, the fourth text as its method and
  -- the map that was read as its attachments. The id, the status and the flags of the header stay.
  pub decode_req_body-Decoded :
      (req : Request) (b : ReadBuffer) {c : ℤ} {r : Request} {b' : ReadBuffer}
      → decode_req_body h find_all req b ≡ ret (c, r, b')
      → Decoded req b c r b'
  decode_req_body-Decoded req b e = subst (Ensures req b) e (body-Ensures req b)
