-- ===== src/External.antt =====
-- What the program takes from outside the repository: the curve library bn256, go-ethereum's
-- `common` and `crypto`, golang.org/x/crypto, the protocol buffers, tendermint's JSON, and the order
-- in which Go happens to iterate over a map.
use shielder.Base.{ℕ, Option, List, Map}
use shielder.Curve.{Curve}
use shielder.Shmsg.{Bytes, Address, MessageWithNonce}

-- `GenesisAppState`, with the keypers as `GetKeypers` returns them.
pub record GenesisAppState : Type 0 where
  pub keypers : List Address
  pub threshold : ℕ

pub record External : Type 1 where
  pub curve : Curve
  -- ECIES public keys
  pub PublicKey : Type 0
  -- `common.BytesToAddress`
  pub bytes_to_address : Bytes → Address
  -- `(*bn256.G1).Unmarshal` and `(*bn256.G2).Unmarshal`, without the bytes left over.
  pub unmarshal_g1 : Bytes → Option curve.G1
  pub unmarshal_g2 : Bytes → Option curve.G2
  -- `crypto.DecompressPubkey` and `ecies.ImportECDSAPublic`
  pub decompress_pubkey : Bytes → Option PublicKey
  -- `sha3.New256` over the bytes written.
  pub sha3_256 : Bytes → Bytes
  -- `crypto.SigToPub`, of a hash and a signature, and `crypto.PubkeyToAddress`.
  pub recover_address : Bytes → Bytes → Option Address
  -- `proto.Unmarshal`
  pub unmarshal_message : Bytes → Option MessageWithNonce
  -- `UnmarshalJSON` of the genesis state.
  pub unmarshal_genesis : Bytes → Option GenesisAppState
  -- The order in which a `range` over a `map[int]int` finds the pairs.
  pub iteration : Map ℕ ℕ → Map ℕ ℕ
