-- ===== src/Lib.antt =====
-- LuaCOM binds Lua to COM: it exposes COM objects to Lua scripts and Lua tables to COM clients. This
-- library models the parts of src/library that keep state or compute on data of their own.
--
-- The parts, and how they interact:
-- * Connection points (src/library/tLuaCOMConnPoints.cpp). A COM client connects a sink to an object
--   implemented in Lua by `Advise` and disconnects it by `Unadvise`; an event called from Lua runs
--   `l_call_sinks`. ConnPoint.antt has the state of tLuaCOMConnPoint, its three parallel vectors and
--   its cookie counter, as a record, and one function per method; a sink that is unlocked goes into
--   a log. What the method learns from outside (arguments that are null, QueryInterface, memory,
--   CreateLuaCOM) is the record AdviseCall. ConnPoint/Slots and ConnPoint/Laws are the laws of the
--   vectors, ConnPoint/Table reads them as a map from cookies, ConnPoint/Owned counts the sinks,
--   ConnPoint/Events is the event loop, ConnPoint/Snapshot the copy that EnumConnections makes.
-- * Enumerators (the same file). Enumerator/Points is tLuaCOMEnumConnPoints and
--   Enumerator/Connections is tLuaCOMEnumConnections, one function per method. The reference count
--   and the index are of 32 bits, and the wrap is written out.
-- * Vectors (src/library/tLuaVector.cpp). A Lua table becomes a tree of stack slots, from which a
--   safearray is filled, and back. Vector.antt has the tree and its readers and writers,
--   Vector/Load is InitVectorFromTable. `Result` is an answer, an exception by its code, or a fault,
--   which is a read through a null pointer. A Lua table is given by what indexing it yields.
-- * Safearrays (src/library/tLuaCOMTypeHandler.cpp). SafeArray.antt is `inc_indices` and the loop over
--   the elements, with indices and bounds in a long of 32 bits, SafeArray/Fill the loops of
--   `safearray_lua2com` and `safearray_com2lua`, in which the conversion of an element is a parameter.
-- * Containers (src/library/tLuaCOMConnPoints.cpp). Container.antt is how a client obtains the default
--   connection point and the enumerators.
-- * TextBuffer.antt is src/library/tStringBuffer.cpp and ParamList.antt src/library/tLuaObjList.cpp.
-- * Decimal texts (src/library/tLuaCOMTypeHandler.cpp). Decimal.antt is the text of integers that
--   no Lua number holds.
-- * Dates (src/library/tUtil.cpp). SystemTime.antt is the calendar arithmetic on SYSTEMTIME.
-- * Event connections of a COM object (src/library/tLuaCOM.cpp). Proxy.antt has the list of them that
--   tLuaCOM keeps, with what the connection points hold, and addConnection, releaseConnection,
--   releaseConnections and releaseComObject. A call of the other side may call back into Lua and so
--   change the object: what it does is a parameter. Proxy/Tracked says when no connection is lost,
--   Proxy/Methods that each method keeps it so, Proxy/Release has histories and failures.
--   Members.antt is getFUNCDESC of the same class, which looks up the descriptions of a function by
--   its name and keeps them, and what the destructor releases of them; Members/Again, Members/Takes
--   and Members/Balance are its laws. ProxyCall.antt is callWithDispatch, over any Invoke, and
--   ProxyCall/Loop puts the Invoke of a dispatch server there.
-- * Type descriptions (src/library/tLuaCOMTypeHandler.cpp). TypeDesc.antt is processTYPEDESC and its
--   helpers over a look-up of references, TypeDesc/Meaning what a description means.
-- * Call arguments (the same file). DispParams.antt is fillDispParams, pushLuaArgs and pushOutValues
--   over the conversions of single values, which the record Conversions takes as parameters.
--   DispParams/Order says where each value goes, DispParams/RoundTrip follows a call to the end.
-- * Dispatch servers (src/library/tLuaDispatch.cpp). A Lua table as a COM object. Dispatch/Object is
--   the constructor and what it holds of the world outside, Dispatch/Interfaces its references,
--   interfaces and destruction, Dispatch/Lifetime and Dispatch/Reached what it owns meanwhile.
--   Dispatch/Session is what a call works on, the Lua state a record of functions with a world of
--   its own, and Dispatch/Invoke is Invoke with its helpers, in the monad of Prelude/Run, which is
--   state and exceptions; an exception is one of LuaCOM's, by its code, or one of another class, which
--   Invoke does not catch. Dispatch/Answers and Dispatch/Calls are their laws; the latter use those of
--   the call arguments.
-- * ActiveX controls (src/library/tLuaControl.cpp, tLuaControl.h). Control.antt has the state of
--   tLuaControl, and the container, the Lua table and the system as a record of parameters that
--   answer by the calls made so far; that a callback of the container does not call the control
--   again is taken for granted. Control/Code are the result codes, Control/Window, Activation,
--   Object, View, Verbs, Answers and References the methods, Control/Protocol the order of calls that
--   a container relies on, as an automaton, and what holds of a control between two requests.
--   Control/Leads, Valid, Neutral, Entering, Kept, Requests, Runs, Willing, Offered and Site are the
--   laws. Whether BeConnectable was called is one of the answers from outside, as is whether the
--   table's DestroyWindow fails. The conversion of units is a parameter, and differences of
--   coordinates do not wrap.
-- * Enumerators of other servers (src/library/tLuaCOMEnumerator.cpp). ComEnumerator.antt is the methods
--   that Lua calls on an IEnumVARIANT, with the VARIANTs and arrays that are live; its Laws count
--   these, and its Values say what comes out in the end.
-- * ClassFactory.antt is src/library/tLuaCOMClassFactory.cpp, with the references to its object.
-- * Searches for type information (src/library/tCOMUtil.cpp). TypeInfos.antt is
--   GetDefaultInterfaceTypeInfo, GetDispatchTypeInfo, and GetCoClassTypeInfo and GetInterfaceTypeInfo
--   by a name, with the references that they take; TypeInfos/Owned says what they answer and hold.
-- * Variant.antt is the sizes and names of the types of a VARIANT
--   (src/library/tLuaCOMTypeHandler.cpp).
--
-- Prelude.antt and its children are the shared names and lemmas, Com.antt the result codes, and
-- Examples the theorems at concrete inputs.
--
-- Fuel: the loop over a safearray runs on one unit for each element, which is enough by the result
-- about it below, the event loop on one for each slot and one more, and the printer of decimal
-- texts on the 32 bytes of its buffer. processTYPEDESC runs on one unit for each level of a
-- description, and one for each reference. All other loops are structural.
--
-- Not modelled: the conversion of single values (lua2com, com2lua) and setOutValues; the clean-up of
-- VARIANTs after an exception in fillDispParams; the stack frame of a call of the proxy class;
-- the creation of a control with its type information (CreateLuaControl, GetUserType); type libraries,
-- the registry and the glue of the Lua API, which are for the most part calls of OLE and of the Lua C
-- API; floating point; the memory of vectors beyond their lengths.
pub mod Prelude
pub mod Com
pub mod ConnPoint
pub mod Enumerator
pub mod Vector
pub mod SystemTime
pub mod Decimal
pub mod SafeArray
pub mod Container
pub mod TextBuffer
pub mod ParamList
pub mod Variant
pub mod Proxy
pub mod Members
pub mod TypeDesc
pub mod TypeInfos
pub mod DispParams
pub mod Dispatch
pub mod ProxyCall
pub mod ClassFactory
pub mod ComEnumerator
pub mod Control
pub mod Examples
