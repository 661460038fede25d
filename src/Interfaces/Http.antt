-- ===== src/Interfaces/Http.antt =====
-- reqwest::Client and its JSON bodies, and RSA-OAEP of the rsa crate with its random numbers.
use dzta.Prelude.{ℕ, Text, Result, Option, List}
use dzta.Interfaces.Json.{Json}

-- A POST.
pub record HttpRequest : Type 0 where
  pub url : Text
  pub headers : List (Text × Text)
  pub body : Option Text

pub record HttpResponse : Type 0 where
  pub status : ℕ
  pub body : Text

-- A failure carries the text that the library's error displays.
pub record Client (World : Type 0) : Type 0 where
  pub send : HttpRequest → World → Result Text HttpResponse × World
  -- Display of a StatusCode
  pub status_text : ℕ → Text

-- from_public_key_pem, and encryption with Oaep::new::<Sha256>() under a random number of the world.
pub record Rsa (Key World : Type 0) : Type 0 where
  pub from_public_key_pem : Text → Result Text Key
  pub encrypt : Key → Text → World → Result Text Text × World

-- Value::as_array
pub record JsonArrays {Value : Type 0} (json : Json Value) : Type 0 where
  pub as_array : Value → Option (List Value)
